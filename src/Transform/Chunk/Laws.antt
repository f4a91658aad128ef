-- ===== src/Transform/Chunk/Laws.antt =====
-- `chunk_events_by_key` never panics, keeps the time that was spent, and merges all neighbours.
use mathlib.Core.List.{reverse, reverse_aux}
use mathlib.Core.Bool.{false≢true}
use aw_server_plus.Prelude.{
  ◌≡◌, ◌≢◌, sym, ap, ◌∙◌, ℤ, pos, ◌+ℤ◌, String, Option, none, some, List, [], ◌∷◌, Eq, ◌==◌, Bool,
  true, false, keep, Returns, Returns-weaken, arith, int_laws, Bool-cases, inl, inr, Option-cases,
  +ℤ-zero, zero-+ℤ,
}
use aw_server_plus.Models.{Event}
use aw_server_plus.Models.Json.{Json}
use aw_server_plus.Transform.Chunk.{chunk_value, chunk_event, chunk_loop, chunk_events_by_key}

abbrev pub total_duration : {D : Type 0} → List (Event D) → ℤ
total_duration [] = pos 0
total_duration (e ∷ es) = e.duration +ℤ total_duration es

regroup : (a b c : ℤ) → a +ℤ b +ℤ c ≡ b +ℤ (a +ℤ c)
regroup a b c = omega int_laws

module _ {D V : Type 0} ⦃eq : Eq V⦄ (json : Json D V) (key : String) where
  abbrev pub has_key : Event D → Bool
  has_key e = elim (json.get e.data_map key) [ none ↦ false | some _ ↦ true ]

  -- Both have a value at the key, and not the same one.
  abbrev pub Differ : Event D → Event D → Type 0
  Differ e f = json.get e.data_map key ≢ json.get f.data_map key

  -- Every event has the key, and neighbours differ at it.
  abbrev pub IsChunked : List (Event D) → Type 0
  IsChunked [] = Unit
  IsChunked (e ∷ []) = has_key e ≡ true
  IsChunked (e ∷ f ∷ es) = (has_key e ≡ true) × Differ e f × IsChunked (f ∷ es)

  added : Event D → ℤ
  added e = elim (json.get e.data_map key) [ none ↦ pos 0 | some _ ↦ e.duration ]

  total-keep :
      (e : Event D) (es : List (Event D))
      → total_duration (keep has_key (e ∷ es)) ≡ added e +ℤ total_duration (keep has_key es)
  unfolding added
  total-keep e es = ground (arith, zero-+ℤ (total_duration (keep has_key es)))

  added-some : (e : Event D) (v : V) → json.get e.data_map key ≡ some v → added e ≡ e.duration
  unfolding added
  added-some e v p = rw (p, added)

  added-none : (e : Event D) → json.get e.data_map key ≡ none → added e ≡ pos 0
  unfolding added
  added-none e p = rw (p, added)

  -- What one event adds to the chunks.
  abbrev Extends : Event D → List (Event D) → List (Event D) → Type 0
  Extends e chunked r = IsChunked r × (total_duration r ≡ added e +ℤ total_duration chunked)

  some_eq : (a b : V) → some a ≡ some b → a ≡ b
  some_eq a b p = cc

  IsChunked-longer :
      (l : Event D) (d : ℤ) (chunked : List (Event D))
      → IsChunked (l ∷ chunked)
      → IsChunked (record l { duration = d } ∷ chunked)
  IsChunked-longer l d [] h = h
  IsChunked-longer l d (m ∷ chunked) h = h

  IsChunked-cons :
      (e l : Event D) (chunked : List (Event D)) (lv v : V)
      → json.get l.data_map key ≡ some lv
      → json.get e.data_map key ≡ some v
      → lv ≢ v
      → IsChunked (l ∷ chunked)
      → IsChunked (e ∷ l ∷ chunked)
  IsChunked-cons e l chunked lv v hl he n h =
      (ground arith, λ p. n (some_eq lv v (sym hl ∙ sym p ∙ he)), h)

  chunk_value_lem :
      (l e : Event D) (chunked : List (Event D)) (lv v : V)
      → json.get l.data_map key ≡ some lv
      → json.get e.data_map key ≡ some v
      → IsChunked (l ∷ chunked)
      → Returns (chunk_value json (l ∷ chunked) e v key) (Extends e (l ∷ chunked))
  unfolding chunk_value
  chunk_value_lem l e chunked lv v hl he h = elim (Bool-cases (lv == v)) [
    | inl same ↦
        rw (hl, chunk_value, same)
          (
            IsChunked-longer l (l.duration +ℤ e.duration) chunked h,
            regroup l.duration e.duration (total_duration chunked)
                ∙ sym (ap (λ d. d +ℤ total_duration (l ∷ chunked)) (added-some e v he)),
          )
    | inr differ ↦
        rw (hl, chunk_value, differ)
          (
            IsChunked-cons e l chunked lv v hl he
                (λ p. false≢true (sym differ ∙ (eq.beq_iff lv v).1 p)) h,
            sym (ap (λ d. d +ℤ total_duration (l ∷ chunked)) (added-some e v he)),
          )
  ]

  IsChunked-head :
      (l : Event D) (chunked : List (Event D)) → IsChunked (l ∷ chunked) → has_key l ≡ true
  IsChunked-head l [] h = h
  IsChunked-head l (m ∷ chunked) h = h.0

  value_of : (e : Event D) → has_key e ≡ true → (v : V) × (json.get e.data_map key ≡ some v)
  value_of e h = ground arith

  total_none :
      (e : Event D) (chunked : List (Event D))
      → json.get e.data_map key ≡ none
      → total_duration chunked ≡ added e +ℤ total_duration chunked
  total_none e chunked p =
      sym
        (ap (λ d. d +ℤ total_duration chunked) (added-none e p) ∙ zero-+ℤ (total_duration chunked))

  chunk_event_lem :
      (chunked : List (Event D)) (e : Event D)
      → IsChunked chunked
      → Returns (chunk_event json chunked e key) (Extends e chunked)
  unfolding chunk_event
  chunk_event_lem [] e h = elim (Option-cases (json.get e.data_map key)) [
    | inl p ↦ rw (p, chunk_event) (tt, total_none e [] p)
    | inr (v, p) ↦ rw (p, chunk_event) (ground arith, sym (ap (λ d. d +ℤ pos 0) (added-some e v p)))
  ]
  chunk_event_lem (l ∷ chunked) e h = elim (Option-cases (json.get e.data_map key)) [
    | inl p ↦ rw (p, chunk_event) (h, total_none e (l ∷ chunked) p)
    | inr (v, p) ↦
        let (lv, hl) = value_of l (IsChunked-head l chunked h) in
        rw (p, chunk_event) (chunk_value_lem l e chunked lv v hl p h)
  ]

  abbrev Chunks : ℤ → List (Event D) → List (Event D) → Type 0
  Chunks before events r =
      IsChunked r × (total_duration r ≡ before +ℤ total_duration (keep has_key events))

  chunk_loop_step :
      (chunked : List (Event D)) (e : Event D) (events : List (Event D))
      (o : Option (List (Event D)))
      → Returns o (Extends e chunked)
      → ((next : List (Event D))
          → IsChunked next
          → Returns (chunk_loop json next events key) (Chunks (total_duration next) events))
      → Returns
          (elim o [ none ↦ none | some next ↦ chunk_loop json next events key ])
          (Chunks (total_duration chunked) (e ∷ events))
  chunk_loop_step chunked e events none h rec = h
  chunk_loop_step chunked e events (some next) (ok, total) rec =
      Returns-weaken (Chunks (total_duration next) events)
        (Chunks (total_duration chunked) (e ∷ events)) (chunk_loop json next events key)
        (λ r (c, t). (
          c,
          t
              ∙ ap (λ d. d +ℤ total_duration (keep has_key events)) total
              ∙ regroup (added e) (total_duration chunked) (total_duration (keep has_key events))
              ∙ sym (ap (λ d. total_duration chunked +ℤ d) (total-keep e events)),
        ))
        (rec next ok)

  chunk_loop_lem :
      (chunked events : List (Event D))
      → IsChunked chunked
      → Returns (chunk_loop json chunked events key) (Chunks (total_duration chunked) events)
  unfolding chunk_loop
  chunk_loop_lem chunked [] h = (h, sym (+ℤ-zero _))
  chunk_loop_lem chunked (e ∷ events) h =
      chunk_loop_step chunked e events (chunk_event json chunked e key)
        (chunk_event_lem chunked e h) (λ next. chunk_loop_lem next events)

  Differ-flip : (e f : Event D) → Differ e f → Differ f e
  Differ-flip e f n p = n (sym p)

  IsChunked-tail : (e : Event D) (es : List (Event D)) → IsChunked (e ∷ es) → IsChunked es
  IsChunked-tail e [] h = tt
  IsChunked-tail e (f ∷ es) h = h.2

  IsChunked-turn :
      (e f : Event D) (acc : List (Event D))
      → has_key f ≡ true
      → Differ e f
      → IsChunked (e ∷ acc)
      → IsChunked (f ∷ e ∷ acc)
  IsChunked-turn e f acc hf n h = (hf, Differ-flip e f n, h)

  IsChunked-reverse_aux :
      (e : Event D) (es acc : List (Event D))
      → IsChunked (e ∷ es)
      → IsChunked (e ∷ acc)
      → IsChunked (reverse_aux es (e ∷ acc))
  IsChunked-reverse_aux e [] acc h k = k
  IsChunked-reverse_aux e (f ∷ es) acc h k =
      IsChunked-reverse_aux f es (e ∷ acc) h.2
        (IsChunked-turn e f acc (IsChunked-head f es h.2) h.1 k)

  IsChunked-reverse : (es : List (Event D)) → IsChunked es → IsChunked (reverse es)
  IsChunked-reverse [] h = h
  IsChunked-reverse (e ∷ es) h = IsChunked-reverse_aux e es [] h (IsChunked-head e es h)

  total-reverse_aux :
      (es acc : List (Event D))
      → total_duration (reverse_aux es acc) ≡ total_duration es +ℤ total_duration acc
  total-reverse_aux [] acc = sym (zero-+ℤ _)
  total-reverse_aux (e ∷ es) acc =
      total-reverse_aux es (e ∷ acc)
      ∙ sym (regroup e.duration (total_duration es) (total_duration acc))

  total-reverse : (es : List (Event D)) → total_duration (reverse es) ≡ total_duration es
  total-reverse es = total-reverse_aux es [] ∙ +ℤ-zero _

  finish :
      (events : List (Event D)) (o : Option (List (Event D)))
      → Returns o (Chunks (pos 0) events)
      → Returns
          (elim o [ none ↦ none | some chunked ↦ some (reverse chunked) ])
          (λ r. IsChunked r × (total_duration r ≡ total_duration (keep has_key events)))
  finish events none h = h
  finish events (some chunked) (c, t) =
      (IsChunked-reverse chunked c, total-reverse chunked ∙ t ∙ zero-+ℤ _)

  -- `chunk_events_by_key` returns without a panic. Each chunk has a value at the key, neighbouring
  -- chunks have different ones, and the chunks last as long together as the events with the key.
  pub chunk_events_by_key_lem :
      (events : List (Event D))
      → Returns
          (chunk_events_by_key json events key)
          (λ r. IsChunked r × (total_duration r ≡ total_duration (keep has_key events)))
  unfolding chunk_events_by_key
  chunk_events_by_key_lem events =
      finish events (chunk_loop json [] events key) (chunk_loop_lem [] events tt)
