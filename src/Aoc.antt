-- ===== src/Aoc.antt =====
-- The puzzles of Advent of Code 2015: crates/benchmark-aoc2015. The generator of random numbers
-- is in Aoc/Rng, the puzzle of day 10 in Aoc/Day10.
pub mod Rng
pub mod Day10
mod Tests
