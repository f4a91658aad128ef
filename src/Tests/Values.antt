-- ===== src/Tests/Values.antt =====
-- Small JSON values and their maps, to try the theorems on.
use aw_server_plus.Prelude.{
  ◌≡◌, refl, ap, subst, ◌↔◌, String, Option, none, some, List, [], ◌∷◌, ◌==◌, string_eq, Eq, Bool,
  true, false, ◌&&◌, if◌then◌else◌, arith,
}
use aw_server_plus.Models.Json.{Json}

mutual
  pub data Value : Type 0 where
    text : String → Value
    obj : Entries → Value

  pub data Entries : Type 0 where
    end : Entries
    entry : String → Value → Entries → Entries

abbrev get : Entries → String → Option Value
get end k = none
get (entry j v es) k = if j == k then some v else get es k

abbrev values : Entries → List Value
values end = []
values (entry j v es) = v ∷ values es

abbrev as_str : Value → Option String
as_str (text s) = some s
as_str (obj es) = none

abbrev as_object : Value → Option Entries
as_object (text s) = none
as_object (obj es) = some es

abbrev to_string : Value → String
to_string (text s) = s
to_string (obj es) = ""

abbrev pub json : Json Entries Value
json = record {
  empty = end;
  get = get;
  insert = λ d k v. entry k v d;
  values = values;
  as_str = as_str;
  string = text;
  as_object = as_object;
  object = obj;
  to_string = to_string;
  get-empty = λ k. refl;
  get-insert = λ d k j v. refl;
  as_str-string = λ s. refl;
  as_object-object = λ d. refl;
}

abbrev mutual
  beq_value : Value → Value → Bool
  beq_value (text s) (text t) = s == t
  beq_value (obj d) (obj e) = beq_entries d e
  beq_value _ _ = false

  beq_entries : Entries → Entries → Bool
  beq_entries end end = true
  beq_entries (entry j v d) (entry k w e) = j == k && (beq_value v w && beq_entries d e)
  beq_entries _ _ = false

both : (a b : Bool) → (a && b) ≡ true → (a ≡ true) × (b ≡ true)
both a b h = ground arith

entry_eq :
    {j k : String} {v w : Value} {d e : Entries} → j ≡ k → v ≡ w → d ≡ e → entry j v d ≡ entry k w e
entry_eq p q r = cc

mutual
  beq_value_sound : (v w : Value) → beq_value v w ≡ true → v ≡ w
  beq_value_sound (text s) (text t) h = ap text ((string_eq.beq_iff s t).0 h)
  beq_value_sound (obj d) (obj e) h = ap obj (beq_entries_sound d e h)
  beq_value_sound (text s) (obj e) h = cc
  beq_value_sound (obj d) (text t) h = cc

  beq_entries_sound : (d e : Entries) → beq_entries d e ≡ true → d ≡ e
  beq_entries_sound end end h = refl
  beq_entries_sound (entry j v d) (entry k w e) h =
      entry_eq ((string_eq.beq_iff j k).0 (both _ _ h).0)
        (beq_value_sound v w (both _ _ (both _ _ h).1).0)
        (beq_entries_sound d e (both _ _ (both _ _ h).1).1)
  beq_entries_sound end (entry k w e) h = cc
  beq_entries_sound (entry j v d) end h = cc

mutual
  beq_value_refl : (v : Value) → beq_value v v ≡ true
  beq_value_refl (text s) = (string_eq.beq_iff s s).1 refl
  beq_value_refl (obj d) = beq_entries_refl d

  beq_entries_refl : (d : Entries) → beq_entries d d ≡ true
  beq_entries_refl end = refl
  beq_entries_refl (entry k v d) =
      rw ((string_eq.beq_iff k k).1 refl, beq_value_refl v) (beq_entries_refl d)

pub beq_value_iff : (v w : Value) → (beq_value v w ≡ true) ↔ (v ≡ w)
beq_value_iff v w =
    (beq_value_sound v w, λ e. subst (λ u. beq_value v u ≡ true) e (beq_value_refl v))

pub beq_entries_iff : (d e : Entries) → (beq_entries d e ≡ true) ↔ (d ≡ e)
beq_entries_iff d e =
    (beq_entries_sound d e, λ p. subst (λ u. beq_entries d u ≡ true) p (beq_entries_refl d))

instance abbrev pub value_eq : Eq Value
value_eq = record { beq = beq_value; beq_iff = beq_value_iff }

instance abbrev pub entries_eq : Eq Entries
entries_eq = record { beq = beq_entries; beq_iff = beq_entries_iff }
