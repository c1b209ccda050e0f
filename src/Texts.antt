-- ===== src/Texts.antt =====
-- `needle in text` of Python's `str`.
use Prim.Native.String.{String, ◌++◌ as append}
use nivara.Prelude.{Bool, true, ◌||◌, ◌≡◌, arith}
use Prim.Native.String.append
use text.Mathlib.TextLemmas.{append-nil, nil-append}
use text.Mathlib.Text.{starts_with}
use text.Mathlib.TextPositions.{starts_with_of_prefix}

abbrev pub contains_text : String → String → Bool
contains_text needle String.[] = starts_with String.[] needle
contains_text needle (String.◌∷◌ c s) =
    starts_with (String.◌∷◌ c s) needle || contains_text needle s

contains_text_start :
    (needle s : String) → starts_with s needle ≡ true → contains_text needle s ≡ true
contains_text_start needle String.[] h = h
contains_text_start needle (String.◌∷◌ c s) h = ground arith

or_true : (a : Bool) {b : Bool} → b ≡ true → (a || b) ≡ true
or_true a h = ground arith

pub contains_text-append : (s needle : String) → contains_text needle (append s needle) ≡ true
contains_text-append String.[] needle = rw (nil-append needle) (
    contains_text_start needle needle
      (starts_with_of_prefix needle needle (String.[], append-nil needle)))
contains_text-append (String.◌∷◌ c s) needle =
    rw (append.cons c s needle) (
      or_true (starts_with (String.◌∷◌ c (append s needle)) needle) (contains_text-append s needle))
