-- ===== src/Sync/Conflict/Order.antt =====
-- The arbitration as an order on versions.
use aw_server_plus.Prelude.{
  sym, ap, ◌∙◌, subst, chosen, passed_over, nat_eq, pos, negsuc, Bool-cases, ◌≡◌, ◌≢◌, refl, ◌⊎◌, ℤ,
  ltb_ℤ, String, Option, none, some, Bool, true, false, not, ◌==◌, int_eq, text_lt, text_lt_total,
  text_lt_trans, arith, inl, inr,
}
use aw_server_plus.Sync.Conflict.{incoming_newer, newer_times, device_newer, device_or_empty}

ltb_ℤ_total : (a b : ℤ) → (a == b) ≡ false → ltb_ℤ a b ≡ not (ltb_ℤ b a)
ltb_ℤ_total (pos m) (pos n) h = ground (arith, nat_eq.beq_iff m n)
ltb_ℤ_total (pos m) (negsuc n) h = ground arith
ltb_ℤ_total (negsuc m) (pos n) h = ground arith
ltb_ℤ_total (negsuc m) (negsuc n) h = ground (arith, nat_eq.beq_iff m n)

beq_sym : (a b : ℤ) → (a == b) ≡ (b == a)
beq_sym (pos m) (pos n) = ground (arith, nat_eq.beq_iff m n, nat_eq.beq_iff n m)
beq_sym (pos m) (negsuc n) = refl
beq_sym (negsuc m) (pos n) = refl
beq_sym (negsuc m) (negsuc n) = ground (arith, nat_eq.beq_iff m n, nat_eq.beq_iff n m)

ltb_ℤ_irrefl : (a : ℤ) → ltb_ℤ a a ≡ false
ltb_ℤ_irrefl a = ground arith

ltb_ℤ_trans : (a b c : ℤ) → ltb_ℤ a b ≡ true → ltb_ℤ b c ≡ true → ltb_ℤ a c ≡ true
ltb_ℤ_trans a b c h k = ground arith

-- A time before another is another time.
ltb_ℤ-ne : (a b : ℤ) → ltb_ℤ a b ≡ true → (a == b) ≡ false
ltb_ℤ-ne a b h = elim (Bool-cases (a == b)) [
  | inl same ↦ cc (ltb_ℤ_irrefl b, ap (λ c. ltb_ℤ c b) ((int_eq.beq_iff a b).0 same), h)
  | inr differ ↦ differ
]

newer_times_total :
    (i l : Option ℤ) (d e : Bool) → e ≡ not d → newer_times l i e ≡ not (newer_times i l d)
unfolding newer_times
newer_times_total none none d e h = h
newer_times_total none (some l) d e h = h
newer_times_total (some i) none d e h = h
newer_times_total (some i) (some l) d e h = elim (Bool-cases (i == l)) [
  | inl same ↦ rw (beq_sym l i, same) h
  | inr differ ↦ rw (beq_sym l i, differ) (ltb_ℤ_total i l differ)
]

newer_times_split :
    (i l : ℤ) (d : Bool)
    → newer_times (some i) (some l) d ≡ true
    → ((i ≡ l) × (d ≡ true)) ⊎ (ltb_ℤ l i ≡ true)
unfolding newer_times
newer_times_split i l d h = elim (Bool-cases (i == l)) [
  | inl same ↦
      inl ((int_eq.beq_iff i l).0 same, sym (passed_over (not (i == l)) _ d (ap not same)) ∙ h)
  | inr differ ↦ inr (sym (chosen (not (i == l)) (ltb_ℤ l i) d (ap not differ)) ∙ h)
]

newer_times_join :
    (i l : ℤ) (d : Bool)
    → ((i ≡ l) × (d ≡ true)) ⊎ (ltb_ℤ l i ≡ true)
    → newer_times (some i) (some l) d ≡ true
unfolding newer_times
newer_times_join i l d (inl (same, h)) =
    passed_over (not (i == l)) _ d (ap not ((int_eq.beq_iff i l).1 same)) ∙ h
newer_times_join i l d (inr h) =
    chosen (not (i == l)) (ltb_ℤ l i) d (ap not (beq_sym i l ∙ ltb_ℤ-ne l i h)) ∙ h

newer_times_trans :
    (i j k : ℤ) (d e f : Bool)
    → (d ≡ true → e ≡ true → f ≡ true)
    → ((j ≡ i) × (d ≡ true)) ⊎ (ltb_ℤ i j ≡ true)
    → ((k ≡ j) × (e ≡ true)) ⊎ (ltb_ℤ j k ≡ true)
    → ((k ≡ i) × (f ≡ true)) ⊎ (ltb_ℤ i k ≡ true)
newer_times_trans i j k d e f devices (inl (p, h)) (inl (q, l)) = inl (q ∙ p, devices h l)
newer_times_trans i j k d e f devices (inl (p, h)) (inr l) = inr (subst (λ t. ltb_ℤ t k ≡ true) p l)
newer_times_trans i j k d e f devices (inr h) (inl (q, l)) =
    inr (subst (λ t. ltb_ℤ i t ≡ true) (sym q) h)
newer_times_trans i j k d e f devices (inr h) (inr l) = inr (ltb_ℤ_trans i j k h l)

module _ (epoch_ms : String → Option ℤ) where
  -- Of two versions of different devices, a missing device being the empty one, exactly one is newer
  -- than the other, whether or not their times can be read.
  pub incoming_newer_total :
      (ts us : String) (a b : Option String)
      → device_or_empty a ≢ device_or_empty b
      → incoming_newer epoch_ms us b ts a ≡ not (incoming_newer epoch_ms ts a us b)
  unfolding incoming_newer device_newer
  incoming_newer_total ts us a b differ =
      newer_times_total (epoch_ms ts) (epoch_ms us) _ _ (other_newer (text_lt_total _ _))
    where
      other_newer :
          (device_or_empty b ≡ device_or_empty a)
            ⊎ (text_lt (device_or_empty a) (device_or_empty b)
                ≡ not (text_lt (device_or_empty b) (device_or_empty a)))
          → text_lt (device_or_empty a) (device_or_empty b)
            ≡ not (text_lt (device_or_empty b) (device_or_empty a))
      other_newer (inl e) = absurd (differ (sym e))
      other_newer (inr e) = e

  -- Between versions whose times can be read, newer than newer is newer.
  pub incoming_newer_trans :
      (ts us vs : String) (a b c : Option String) (i j k : ℤ)
      → epoch_ms ts ≡ some i
      → epoch_ms us ≡ some j
      → epoch_ms vs ≡ some k
      → incoming_newer epoch_ms us b ts a ≡ true
      → incoming_newer epoch_ms vs c us b ≡ true
      → incoming_newer epoch_ms vs c ts a ≡ true
  unfolding incoming_newer device_newer
  incoming_newer_trans ts us vs a b c i j k p q r =
      rw (p, q, r)
        (λ h l. newer_times_join k i _ (
          newer_times_trans i j k _ _ _
            (text_lt_trans (device_or_empty a) (device_or_empty b) (device_or_empty c))
            (newer_times_split j i _ h) (newer_times_split k j _ l)))
