-- ===== src/Prelude/Text.antt =====
-- Python's text operations that the program uses: `strip`, `<` by code points, `sorted`, `in`, `join`.
use Prim.Native.Nat.{ℕ}
use Prim.Native.Char.{code}
use Prim.Native.String.{◌++◌ as str_append}
use mathlib.Core.Path.{◌≡◌, refl}
use mathlib.Core.Bool.{true, false, not}
use mathlib.Core.List.{List, [], ◌∷◌}
use native.Mathlib.Omega.{arith}
use Prim.Native.String.{String}
use mathlib.Core.Bool.{Bool, ◌&&◌, ◌||◌}
use zdrovena_reconciliation.Prelude.Tests.{leb, ltb, ◌==◌, if◌then◌else◌}

pub is_space : ℕ → Bool
is_space c =
    (leb 0x9 c && leb c 0xd)
    || (leb 0x1c c && leb c 0x20)
    || (c == 0x85)
    || (c == 0xa0)
    || (c == 0x1680)
    || (leb 0x2000 c && leb c 0x200a)
    || (leb 0x2028 c && leb c 0x2029)
    || (c == 0x202f)
    || (c == 0x205f)
    || (c == 0x3000)

pub lstrip : String → String
unfolding is_space
lstrip String.[] = String.[]
lstrip (String.◌∷◌ c s) = let rest = lstrip s in if is_space (code c) then rest else String.◌∷◌ c s

pub reverse_onto : String → String → String
reverse_onto String.[] acc = acc
reverse_onto (String.◌∷◌ c s) acc = reverse_onto s (String.◌∷◌ c acc)

unfoldable pub strip : String → String
unfolding lstrip reverse_onto
strip s = reverse_onto (lstrip (reverse_onto (lstrip s) "")) ""

-- `<`
unfoldable pub precedes : String → String → Bool
precedes String.[] String.[] = false
precedes String.[] (String.◌∷◌ d t) = true
precedes (String.◌∷◌ c s) String.[] = false
precedes (String.◌∷◌ c s) (String.◌∷◌ d t) =
    let rest = precedes s t in
    if ltb (code c) (code d) then true else if ltb (code d) (code c) then false else rest

pub precedes_asymmetric : (s t : String) → precedes s t ≡ true → precedes t s ≡ false
unfolding precedes
precedes_asymmetric String.[] String.[] h = refl
precedes_asymmetric String.[] (String.◌∷◌ d t) h = refl
precedes_asymmetric (String.◌∷◌ c s) String.[] h = cc
precedes_asymmetric (String.◌∷◌ c s) (String.◌∷◌ d t) h = ground (arith, precedes_asymmetric s t)

-- `s.startswith(prefix)`
unfoldable pub starts_with : String → String → Bool
starts_with s String.[] = true
starts_with String.[] (String.◌∷◌ d t) = false
starts_with (String.◌∷◌ c s) (String.◌∷◌ d t) = code c == code d && starts_with s t

-- `needle in s`
unfoldable pub contains : String → String → Bool
unfolding starts_with
contains String.[] needle = starts_with String.[] needle
contains (String.◌∷◌ c s) needle = starts_with (String.◌∷◌ c s) needle || contains s needle

-- `", ".join(texts)`
unfoldable pub join_comma : List String → String
join_comma [] = ""
join_comma (s ∷ []) = s
join_comma (s ∷ t ∷ texts) = str_append s (str_append ", " (join_comma (t ∷ texts)))

-- `sorted(texts)`
unfoldable pub insert_text : String → List String → List String
insert_text x [] = x ∷ []
insert_text x (y ∷ ys) =
    let rest = insert_text x ys in if precedes y x then y ∷ rest else x ∷ y ∷ ys

unfoldable pub sorted : List String → List String
unfolding insert_text
sorted [] = []
sorted (x ∷ xs) = insert_text x (sorted xs)

is_head_least : String → List String → Bool
is_head_least x [] = true
is_head_least x (y ∷ ys) = not (precedes y x)

is_in_order : List String → Bool
unfolding is_head_least
is_in_order [] = true
is_in_order (x ∷ xs) = is_head_least x xs && is_in_order xs

is_in_order-insert_text :
    (x : String) (xs : List String) → is_in_order xs ≡ true → is_in_order (insert_text x xs) ≡ true
unfolding insert_text is_in_order
is_in_order-insert_text x [] h = refl
is_in_order-insert_text x (y ∷ []) h = ground (arith, precedes_asymmetric y x)
is_in_order-insert_text x (y ∷ z ∷ zs) h =
    ground (arith, precedes_asymmetric y x, is_in_order-insert_text x (z ∷ zs))

is_in_order-sorted : (xs : List String) → is_in_order (sorted xs) ≡ true
unfolding sorted is_in_order
is_in_order-sorted [] = refl
is_in_order-sorted (x ∷ xs) = is_in_order-insert_text x (sorted xs) (is_in_order-sorted xs)

sorted_in_order : (xs : List String) → is_in_order xs ≡ true → sorted xs ≡ xs
unfolding sorted is_in_order insert_text
sorted_in_order [] h = refl
sorted_in_order (x ∷ []) h = refl
sorted_in_order (x ∷ y ∷ ys) h = ground (arith, sorted_in_order (y ∷ ys))

pub sorted-sorted : (xs : List String) → sorted (sorted xs) ≡ sorted xs
sorted-sorted xs = sorted_in_order (sorted xs) (is_in_order-sorted xs)
