-- ===== src/QuickBench.antt =====
-- The quick benchmark of crates/benchmark-types/src/config/mod.rs: its exercises by language.
use llm_benchmark.Common.{ℕ, ◌+◌, String, List, [], ◌∷◌, if◌then◌else◌, str_eq}

abbrev quick_cpp : List String
quick_cpp =
    "all-your-base" ∷ "allergies" ∷ "bank-account" ∷ "binary-search-tree" ∷ "circular-buffer"
    ∷ "clock" ∷ "crypto-square" ∷ "diamond" ∷ "dnd-character" ∷ "gigasecond" ∷ "grade-school"
    ∷ "kindergarten-garden" ∷ "knapsack" ∷ "linked-list" ∷ "parallel-letter-frequency"
    ∷ "perfect-numbers" ∷ "phone-number" ∷ "queen-attack" ∷ "robot-name" ∷ "space-age"
    ∷ "spiral-matrix" ∷ "sublist" ∷ "yacht" ∷ []

abbrev quick_go : List String
quick_go =
    "beer-song" ∷ "book-store" ∷ "bottle-song" ∷ "crypto-square" ∷ "dnd-character" ∷ "dominoes"
    ∷ "error-handling" ∷ "food-chain" ∷ "hexadecimal" ∷ "octal" ∷ "paasio" ∷ "palindrome-products"
    ∷ "pig-latin" ∷ "protein-translation" ∷ "say" ∷ "simple-linked-list" ∷ "sublist" ∷ "transpose"
    ∷ "tree-building" ∷ "trinary" ∷ "two-bucket" ∷ "variable-length-quantity" ∷ "word-search"
    ∷ "wordy" ∷ []

abbrev quick_java : List String
quick_java =
    "affine-cipher" ∷ "all-your-base" ∷ "bank-account" ∷ "book-store" ∷ "bottle-song" ∷ "change"
    ∷ "circular-buffer" ∷ "custom-set" ∷ "dominoes" ∷ "house" ∷ "kindergarten-garden"
    ∷ "ocr-numbers" ∷ "palindrome-products" ∷ "phone-number" ∷ "pig-latin" ∷ "protein-translation"
    ∷ "pythagorean-triplet" ∷ "queen-attack" ∷ "resistor-color-trio" ∷ "satellite" ∷ "series"
    ∷ "simple-linked-list" ∷ "state-of-tic-tac-toe" ∷ "transpose" ∷ "tree-building" ∷ "twelve-days"
    ∷ "two-bucket" ∷ "word-search" ∷ []

abbrev quick_javascript : List String
quick_javascript =
    "affine-cipher" ∷ "alphametics" ∷ "beer-song" ∷ "binary" ∷ "book-store" ∷ "bottle-song"
    ∷ "connect" ∷ "food-chain" ∷ "go-counting" ∷ "grade-school" ∷ "grep" ∷ "killer-sudoku-helper"
    ∷ "list-ops" ∷ "meetup" ∷ "ocr-numbers" ∷ "palindrome-products" ∷ "phone-number" ∷ "pig-latin"
    ∷ "promises" ∷ "queen-attack" ∷ "rational-numbers" ∷ "rectangles" ∷ "resistor-color-trio"
    ∷ "robot-name" ∷ "say" ∷ "scale-generator" ∷ "simple-linked-list" ∷ "space-age"
    ∷ "state-of-tic-tac-toe" ∷ "sum-of-multiples" ∷ "tournament" ∷ "transpose" ∷ "triangle"
    ∷ "twelve-days" ∷ "two-bucket" ∷ "variable-length-quantity" ∷ "word-search" ∷ "wordy" ∷ "zipper"
    ∷ []

abbrev quick_python : List String
quick_python =
    "affine-cipher" ∷ "beer-song" ∷ "book-store" ∷ "bottle-song" ∷ "dominoes" ∷ "food-chain"
    ∷ "go-counting" ∷ "grade-school" ∷ "grep" ∷ "list-ops" ∷ "phone-number" ∷ "pig-latin"
    ∷ "proverb" ∷ "rest-api" ∷ "robot-name" ∷ "simple-linked-list" ∷ "transpose" ∷ "tree-building"
    ∷ "two-bucket" ∷ "variable-length-quantity" ∷ "wordy" ∷ "zebra-puzzle" ∷ "zipper" ∷ []

abbrev quick_rust : List String
quick_rust =
    "accumulate" ∷ "acronym" ∷ "alphametics" ∷ "book-store" ∷ "dot-dsl" ∷ "gigasecond"
    ∷ "grade-school" ∷ "grep" ∷ "luhn-from" ∷ "macros" ∷ "nucleotide-codons"
    ∷ "parallel-letter-frequency" ∷ "pig-latin" ∷ "robot-name" ∷ "say" ∷ "two-bucket"
    ∷ "variable-length-quantity" ∷ "word-count" ∷ []

-- `QuickBenchConfig::get_exercises_for_language`.
unfoldable pub get_exercises_for_language : String → List String
get_exercises_for_language language =
    if str_eq language "cpp"
    then quick_cpp
    else if str_eq language "go"
    then quick_go
    else if str_eq language "java"
    then quick_java
    else if str_eq language "javascript"
    then quick_javascript
    else if str_eq language "python"
    then quick_python
    else if str_eq language "rust"
    then quick_rust
    else []

unfoldable pub get_available_languages : List String
get_available_languages = "cpp" ∷ "go" ∷ "java" ∷ "javascript" ∷ "python" ∷ "rust" ∷ []

unfoldable pub get_total_exercise_count : ℕ
get_total_exercise_count = 23 + 24 + 28 + 39 + 23 + 18
