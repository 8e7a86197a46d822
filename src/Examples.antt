-- ===== src/Examples.antt =====
-- Runs at concrete inputs, and each theorem at an input that meets its hypotheses.
mod Bitmaps
mod NamesAndIndexes
mod Trees
mod HiveCells
mod FreeCells
mod Headers
mod Files
mod Inserts
