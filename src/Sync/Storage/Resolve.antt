-- ===== src/Sync/Storage/Resolve.antt =====
-- aw-sync-rust/src/storage.rs: what old ids stand for after a merge.
use Prim.Native.Nat.{ℕ, zero, suc}
use aw_server_plus.Prelude.{
  ◌≡◌, refl, sym, ◌∙◌, subst, String, none, some, List, ◌==◌, string_eq, true, false, arith, chosen,
  Bool-cases, Option-cases, inl, inr, lookup, put, lookup-put, lookup-put_other, beq_sym,
}
use aw_server_plus.Sync.Storage.{SyncDb}
use aw_server_plus.Sync.Storage.Merging.{
  merge_refusal, merge_device, merge_rows, resolve_hops, resolve_device_id,
}

resolve_settled :
    (hops : ℕ) (aliases : List (String × String)) (id : String)
    → lookup aliases id ≡ none
    → resolve_hops hops aliases id ≡ id
unfolding resolve_hops
resolve_settled zero aliases id h = refl
resolve_settled (suc hops) aliases id h = rw (resolve_hops, h) refl

resolve_next :
    (hops : ℕ) (aliases : List (String × String)) (id next : String)
    → lookup aliases id ≡ some next
    → (next == id) ≡ false
    → resolve_hops (suc hops) aliases id ≡ resolve_hops hops aliases next
unfolding resolve_hops
resolve_next hops aliases id next h differ = rw (resolve_hops, h, differ) refl

resolve_own :
    (hops : ℕ) (aliases : List (String × String)) (id next : String)
    → lookup aliases id ≡ some next
    → (next == id) ≡ true
    → resolve_hops (suc hops) aliases id ≡ id
unfolding resolve_hops
resolve_own hops aliases id next h same = rw (resolve_hops, h, same) refl

module _ (aliases : List (String × String)) (from to : String) where
  absurd :
      (hops : ℕ) (id : String)
      → (from == id) ≡ false
      → id ≡ from
      → resolve_hops hops (put aliases from to) id ≡ to
  absurd hops id other e = let same = (string_eq.beq_iff from id).1 (sym e) in ground arith

  resolve_from :
      (hops : ℕ)
      → lookup aliases to ≡ none
      → (from == to) ≡ false
      → resolve_hops (suc hops) (put aliases from to) from ≡ to
  unfolding resolve_hops
  resolve_from hops h differ =
      rw (resolve_hops, lookup-put aliases from to, beq_sym to from, differ)
        (resolve_settled hops (put aliases from to) to
          (lookup-put_other aliases from to to differ ∙ h))

  -- An id that led to `from` leads to `to`, one hop further.
  resolve_hops-put :
      (hops : ℕ) (id : String)
      → lookup aliases to ≡ none
      → (from == to) ≡ false
      → resolve_hops hops aliases id ≡ from
      → resolve_hops (suc hops) (put aliases from to) id ≡ to
  unfolding resolve_hops
  resolve_hops-put zero id h differ led =
      subst (λ k. resolve_hops 1 (put aliases from to) k ≡ to) (sym led)
        (resolve_from zero h differ)
  resolve_hops-put (suc hops) id h differ led = elim (Bool-cases (from == id)) [
    | inl same ↦
        subst (λ k. resolve_hops (suc (suc hops)) (put aliases from to) k ≡ to)
          ((string_eq.beq_iff from id).0 same) (resolve_from (suc hops) h differ)
    | inr other ↦
        let kept = lookup-put_other aliases from id to other in
        elim (Option-cases (lookup aliases id)) [
          | inl nothing ↦
              absurd (suc (suc hops)) id other
                (sym (resolve_settled (suc hops) aliases id nothing) ∙ led)
          | inr (next, found) ↦ elim (Bool-cases (next == id)) [
            | inl own ↦
                absurd (suc (suc hops)) id other
                  (sym (resolve_own hops aliases id next found own) ∙ led)
            | inr away ↦
                resolve_next (suc hops) (put aliases from to) id next (kept ∙ found) away
                ∙ resolve_hops-put hops next h differ
                    (sym (resolve_next hops aliases id next found away) ∙ led)
          ]
        ]
  ]

merge_refusal-differ :
    (db : SyncDb) (from to : String)
    → merge_refusal db.devices from to ≡ none
    → (from == to) ≡ false
unfolding merge_refusal
merge_refusal-differ db from to h = elim (Bool-cases (from == to)) [
  | inl same ↦ cc (sym h ∙ chosen (from == to) _ _ same)
  | inr differ ↦ differ
]

-- After a merge that is not refused, into a device whose id has no alias, each id that led to the
-- merged one in seven hops, which that one itself does where it has no alias, stands for the device
-- it was merged into.
pub merge_device-resolve_device_id :
    (from to id : String) (db : SyncDb)
    → merge_refusal db.devices from to ≡ none
    → lookup db.aliases to ≡ none
    → resolve_hops 7 db.aliases id ≡ from
    → resolve_device_id (merge_device from to db).1 id ≡ to
unfolding merge_device merge_rows resolve_device_id
merge_device-resolve_device_id from to id db accepted current led =
    rw (merge_device, accepted)
      (resolve_hops-put db.aliases from to 7 id current (merge_refusal-differ db from to accepted)
        led)
