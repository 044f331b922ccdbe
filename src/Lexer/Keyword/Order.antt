-- ===== src/Lexer/Keyword/Order.antt =====
-- src/lexer/ms_lexer.c: the comparison of `lexLookupKeyword`, and the order of the keyword table.
use Prim.Native.Nat.{compare, Ordering}
use mslang_c.Base.{
  ℕ, zero, suc, ◌<◌, ◌≡◌, refl, Bool, true, false, ◌&&◌, List, [], ◌∷◌, Bytes, not, ◌==◌, arith,
  length, get_or, all, all-get_or,
}
use mslang_c.Lexer.Keyword.{keywords, keyword_at, strncmp, compare_word}
use mslang_c.Lexer.Kind.{TokKind, tok_ident}

-- Byte strings in lexicographic order.
unfoldable pub lex_order : Bytes → Bytes → Ordering
lex_order [] [] = Ordering.eq
lex_order [] (y ∷ ys) = Ordering.lt
lex_order (x ∷ xs) [] = Ordering.gt
lex_order (x ∷ xs) (y ∷ ys) = elim (compare x y) [
  | Ordering.lt ↦ Ordering.lt
  | Ordering.gt ↦ Ordering.gt
  | Ordering.eq ↦ lex_order xs ys
]

pub lex_order_self : (a : Bytes) → lex_order a a ≡ Ordering.eq
unfolding lex_order
lex_order_self [] = refl
lex_order_self (x ∷ xs) = ground (arith, lex_order_self xs)

pub eq_of_lex_order : (a b : Bytes) → lex_order a b ≡ Ordering.eq → a ≡ b
unfolding lex_order
eq_of_lex_order [] [] h = refl
eq_of_lex_order [] (y ∷ ys) h = cc
eq_of_lex_order (x ∷ xs) [] h = cc
eq_of_lex_order (x ∷ xs) (y ∷ ys) h = ground (arith, eq_of_lex_order xs ys)

pub lex_order_asymm : (a b : Bytes) → lex_order a b ≡ Ordering.lt → lex_order b a ≡ Ordering.gt
unfolding lex_order
lex_order_asymm [] [] h = cc
lex_order_asymm [] (y ∷ ys) h = refl
lex_order_asymm (x ∷ xs) [] h = cc
lex_order_asymm (x ∷ xs) (y ∷ ys) h = ground (arith, lex_order_asymm xs ys)

abbrev no_zero : Bytes → Bool
no_zero = all (λ c. not (c == 0))

-- The text holds no zero byte.
abbrev pub HasNoZero : Bytes → Type 0
HasNoZero w = no_zero w ≡ true

-- On texts with no zero byte `strncmp`, and then the lengths, decide as the lexicographic order.
pub compare_word-lex_order :
    (w word : Bytes) → HasNoZero w → HasNoZero word → compare_word w word ≡ lex_order w word
unfolding compare_word strncmp lex_order
compare_word-lex_order [] [] h k = refl
compare_word-lex_order [] (y ∷ ys) h k = ground arith
compare_word-lex_order (x ∷ xs) [] h k = ground arith
compare_word-lex_order (x ∷ xs) (y ∷ ys) h k = ground (arith, compare_word-lex_order xs ys)

below_all : Bytes → List (Bytes × TokKind) → Bool
below_all w [] = true
below_all w ((k, _) ∷ ks) = elim (lex_order w k) [ Ordering.lt ↦ below_all w ks | _ ↦ false ]

is_sorted : List (Bytes × TokKind) → Bool
is_sorted [] = true
is_sorted ((k, _) ∷ ks) = below_all k ks && is_sorted ks

below_all-get_or :
    (w : Bytes) (ks : List (Bytes × TokKind)) (i : ℕ)
    → below_all w ks ≡ true
    → i < length ks
    → lex_order w (get_or ks i ([], tok_ident)).0 ≡ Ordering.lt
unfolding below_all
below_all-get_or w [] i h r = absurd (omega arith)
below_all-get_or w ((k, t) ∷ ks) zero h r = ground arith
below_all-get_or w ((k, t) ∷ ks) (suc i) h r = ground (arith, below_all-get_or w ks i)

is_sorted-get_or :
    (ks : List (Bytes × TokKind)) (i j : ℕ)
    → is_sorted ks ≡ true
    → i < j
    → j < length ks
    → lex_order (get_or ks i ([], tok_ident)).0 (get_or ks j ([], tok_ident)).0 ≡ Ordering.lt
unfolding is_sorted
is_sorted-get_or [] i j h l r = absurd (omega arith)
is_sorted-get_or ((k, t) ∷ ks) i zero h l r = absurd (omega arith)
is_sorted-get_or ((k, t) ∷ ks) zero (suc j) h l r = ground (arith, below_all-get_or k ks j)
is_sorted-get_or ((k, t) ∷ ks) (suc i) (suc j) h l r = ground (arith, is_sorted-get_or ks i j)

keywords-sorted : is_sorted keywords ≡ true
unfolding is_sorted below_all lex_order
keywords-sorted = refl

-- An earlier word of the table is the lesser.
pub keyword_at-lt :
    (i j : ℕ)
    → i < j
    → j < length keywords
    → lex_order (keyword_at i).0 (keyword_at j).0 ≡ Ordering.lt
keyword_at-lt i j l r = is_sorted-get_or keywords i j keywords-sorted l r

pub keyword_at-HasNoZero : (i : ℕ) → HasNoZero (keyword_at i).0
keyword_at-HasNoZero i =
    all-get_or (λ (k : Bytes × TokKind). no_zero k.0) keywords i ([], tok_ident) refl refl
