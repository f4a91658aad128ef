-- ===== src/Sync/Activity/Fingerprint.antt =====
-- Fingerprints of events tell events apart, where no name of a bucket has a vertical bar: the parts of
-- a fingerprint are read back from its text.
use Prim.Native.Char.{Char, code}
use Prim.Native.Nat.{ℕ, zero, suc, ◌+◌, ◌*◌, ◌/◌, ◌-◌, ◌<◌}
use Prim.Native.String.{String, ◌++◌}
use Prim.Native.String.append.{nil, cons}
use aw_server_plus.Prelude.{
  ◌≡◌, refl, sym, ap, ◌∙◌, ℤ, pos, negsuc, Bool, true, false, ◌==◌, nat_eq, ◌||◌, ltb,
  if◌then◌else◌, Bool-cases, inl, inr, arith, decimal, digit, digits,
}
use aw_server_plus.Sync.Activity.{event_fingerprint}

-- Whether a text has the character of a code.
unfoldable pub has : ℕ → String → Bool
has c String.[] = false
has c (String.◌∷◌ d s) = code d == c || has c s

append_nil : (t : String) → "" ++ t ≡ t
append_nil t = λ i. nil t i

append_cons : (c : Char) (s t : String) → String.◌∷◌ c s ++ t ≡ String.◌∷◌ c (s ++ t)
append_cons c s t = λ i. cons c s t i

-- The text before the first vertical bar, whose code is 124, and after it.
unfoldable before_bar : String → String
before_bar String.[] = ""
before_bar (String.◌∷◌ c s) =
    let rest = before_bar s in if code c == 124 then "" else String.◌∷◌ c rest

unfoldable after_bar : String → String
after_bar String.[] = ""
after_bar (String.◌∷◌ c s) = let rest = after_bar s in if code c == 124 then s else rest

bar_cons : (t : String) → "|" ++ t ≡ String.◌∷◌ "|" t
bar_cons t = append_cons "|" "" t ∙ ap (String.◌∷◌ "|") (append_nil t)

before_bar_lem : (s t : String) → has 124 s ≡ false → before_bar (s ++ ("|" ++ t)) ≡ s
unfolding before_bar has
before_bar_lem String.[] t h = ap before_bar (append_nil ("|" ++ t) ∙ bar_cons t)
before_bar_lem (String.◌∷◌ c s) t h =
    ap before_bar (append_cons c s ("|" ++ t)) ∙ ground (arith, before_bar_lem s t)

after_bar_lem : (s t : String) → has 124 s ≡ false → after_bar (s ++ ("|" ++ t)) ≡ t
unfolding after_bar has
after_bar_lem String.[] t h = ap after_bar (append_nil ("|" ++ t) ∙ bar_cons t)
after_bar_lem (String.◌∷◌ c s) t h =
    ap after_bar (append_cons c s ("|" ++ t)) ∙ ground (arith, after_bar_lem s t)

-- The number that decimal digits write, after those that were read.
unfoldable value : ℕ → String → ℕ
value n String.[] = n
value n (String.◌∷◌ c s) = value (n * 10 + (code c - 48)) s

digit_value : (n d : ℕ) → d < 10 → value n (digit d) ≡ n * 10 + d
unfolding value digit
digit_value n zero h = omega arith
digit_value n (suc zero) h = omega arith
digit_value n (suc (suc zero)) h = omega arith
digit_value n (suc (suc (suc zero))) h = omega arith
digit_value n (suc (suc (suc (suc zero)))) h = omega arith
digit_value n (suc (suc (suc (suc (suc zero))))) h = omega arith
digit_value n (suc (suc (suc (suc (suc (suc zero)))))) h = omega arith
digit_value n (suc (suc (suc (suc (suc (suc (suc zero))))))) h = omega arith
digit_value n (suc (suc (suc (suc (suc (suc (suc (suc zero)))))))) h = omega arith
digit_value n (suc (suc (suc (suc (suc (suc (suc (suc (suc zero))))))))) h = omega arith
digit_value n (suc (suc (suc (suc (suc (suc (suc (suc (suc (suc d)))))))))) h =
    absurd (omega (arith, h))

lt_of_ltb : (a b : ℕ) → ltb a b ≡ true → a < b
lt_of_ltb a b h = ground arith

value_last : (n d : ℕ) (s : String) → d < 10 → value n (s ++ digit d) ≡ value n s * 10 + d
unfolding value
value_last n d String.[] h = ap (value n) (append_nil (digit d)) ∙ digit_value n d h
value_last n d (String.◌∷◌ c s) h =
    ap (value n) (append_cons c s (digit d)) ∙ value_last (n * 10 + (code c - 48)) d s h

last_digit : (n : ℕ) → n - 10 * (n / 10) < 10
last_digit n = omega arith

value-digits : (fuel n : ℕ) → n < fuel → value 0 (digits fuel n) ≡ n
unfolding digits
value-digits zero n h = absurd (omega (arith, h))
value-digits (suc fuel) n h = elim (Bool-cases (ltb n 10)) [
  | inl small ↦ rw (small) (digit_value 0 n (lt_of_ltb n 10 small) ∙ omega arith)
  | inr large ↦ rw (large) (
      value_last 0 (n - 10 * (n / 10)) (digits fuel (n / 10)) (last_digit n)
      ∙ ap (λ m. m * 10 + (n - 10 * (n / 10))) (value-digits fuel (n / 10) (ground arith))
      ∙ omega arith)
]

-- Decimal digits have neither a vertical bar nor a minus sign, whose code is 45.
abbrev Plain : String → Type 0
Plain s = (has 124 s ≡ false) × (has 45 s ≡ false)

digit-Plain : (d : ℕ) → d < 10 → Plain (digit d)
unfolding has digit
digit-Plain zero h = (refl, refl)
digit-Plain (suc zero) h = (refl, refl)
digit-Plain (suc (suc zero)) h = (refl, refl)
digit-Plain (suc (suc (suc zero))) h = (refl, refl)
digit-Plain (suc (suc (suc (suc zero)))) h = (refl, refl)
digit-Plain (suc (suc (suc (suc (suc zero))))) h = (refl, refl)
digit-Plain (suc (suc (suc (suc (suc (suc zero)))))) h = (refl, refl)
digit-Plain (suc (suc (suc (suc (suc (suc (suc zero))))))) h = (refl, refl)
digit-Plain (suc (suc (suc (suc (suc (suc (suc (suc zero)))))))) h = (refl, refl)
digit-Plain (suc (suc (suc (suc (suc (suc (suc (suc (suc zero))))))))) h = (refl, refl)
digit-Plain (suc (suc (suc (suc (suc (suc (suc (suc (suc (suc d)))))))))) h =
    absurd (omega (arith, h))

has-append : (c : ℕ) (s t : String) → has c s ≡ false → has c t ≡ false → has c (s ++ t) ≡ false
unfolding has
has-append c String.[] t h k = ap (has c) (append_nil t) ∙ k
has-append c (String.◌∷◌ d s) t h k =
    ap (has c) (append_cons d s t) ∙ ground (arith, has-append c s t)

digits-Plain : (fuel n : ℕ) → Plain (digits fuel n)
unfolding digits has
digits-Plain zero n = (refl, refl)
digits-Plain (suc fuel) n = elim (Bool-cases (ltb n 10)) [
  | inl small ↦ rw (small) (digit-Plain n (lt_of_ltb n 10 small))
  | inr large ↦
      let front = digits-Plain fuel (n / 10) in
      let last = digit-Plain (n - 10 * (n / 10)) (last_digit n) in
      rw (large) (
        has-append 124 (digits fuel (n / 10)) (digit (n - 10 * (n / 10))) front.0 last.0,
        has-append 45 (digits fuel (n / 10)) (digit (n - 10 * (n / 10))) front.1 last.1,
      )
]

unfoldable read : String → ℤ
unfolding value
read String.[] = pos 0
read (String.◌∷◌ c s) =
    if code c == 45 then negsuc (value 0 s - 1) else pos (value 0 (String.◌∷◌ c s))

read_plain : (s : String) → has 45 s ≡ false → read s ≡ pos (value 0 s)
unfolding read value has
read_plain String.[] h = refl
read_plain (String.◌∷◌ c s) h = elim (Bool-cases (code c == 45)) [
  | inl minus ↦ cc (sym (ap (λ t. t || has 45 s) minus) ∙ h)
  | inr plain ↦ rw (plain) refl
]

minus_cons : (s : String) → "-" ++ s ≡ String.◌∷◌ "-" s
minus_cons s = append_cons "-" "" s ∙ ap (String.◌∷◌ "-") (append_nil s)

read-decimal : (z : ℤ) → read (decimal z) ≡ z
unfolding decimal read
read-decimal (pos n) =
    read_plain (digits (suc n) n) (digits-Plain (suc n) n).1
    ∙ ap pos (value-digits (suc n) n (omega arith))
read-decimal (negsuc n) =
    ap read (minus_cons (digits (suc (suc n)) (suc n)))
    ∙ ap (λ m. negsuc (m - 1)) (value-digits (suc (suc n)) (suc n) (omega arith))
    ∙ ap negsuc (omega arith)

decimal_plain : (z : ℤ) → has 124 (decimal z) ≡ false
unfolding decimal has
decimal_plain (pos n) = (digits-Plain (suc n) n).0
decimal_plain (negsuc n) =
    has-append 124 "-" (digits (suc (suc n)) (suc n)) refl (digits-Plain (suc (suc n)) (suc n)).0

same_parts :
    (s t u v : String)
    → has 124 s ≡ false
    → has 124 t ≡ false
    → s ++ ("|" ++ u) ≡ t ++ ("|" ++ v)
    → (s ≡ t) × (u ≡ v)
same_parts s t u v h k e = (
  sym (before_bar_lem s u h) ∙ ap before_bar e ∙ before_bar_lem t v k,
  sym (after_bar_lem s u h) ∙ ap after_bar e ∙ after_bar_lem t v k,
)

-- Two events with the same fingerprint, in buckets whose names have no vertical bar, have the same
-- name of their bucket, time, duration and data.
pub same_event :
    (n m : String) (t u d e : ℤ) (x y : String)
    → has 124 n ≡ false
    → has 124 m ≡ false
    → event_fingerprint n t d x ≡ event_fingerprint m u e y
    → (n ≡ m) × ((t ≡ u) × ((d ≡ e) × (x ≡ y)))
unfolding event_fingerprint
same_event n m t u d e x y h k same =
    let names = same_parts n m _ _ h k same in
    let times =
      same_parts (decimal t) (decimal u) _ _ (decimal_plain t) (decimal_plain u) names.1 in
    let rest = same_parts (decimal d) (decimal e) _ _ (decimal_plain d) (decimal_plain e) times.1 in
    (
      names.0,
      (
        sym (read-decimal t) ∙ ap read times.0 ∙ read-decimal u,
        (sym (read-decimal d) ∙ ap read rest.0 ∙ read-decimal e, rest.1),
      ),
    )
