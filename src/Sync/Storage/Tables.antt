-- ===== src/Sync/Storage/Tables.antt =====
-- aw-sync-rust/src/storage.rs: the table of the devices under its statements, as a function from
-- ids to rows.
use Prim.{tt}
use aw_server_plus.Prelude.{
  ◌≡◌, refl, sym, ◌∙◌, subst, String, Option, none, some, List, [], ◌∷◌, ◌==◌, string_eq, beq_sym,
  Bool, true, false, if◌then◌else◌, arith, Bool-cases, inl, inr,
}
use aw_server_plus.Sync.Storage.{DeviceRow, find_device, update_device, upsert_row, delete_where}

-- The row of an id, after a change of the rows under `id`.
abbrev pub change_at :
    (String → Option DeviceRow) → String → (DeviceRow → DeviceRow) → String → Option DeviceRow
change_at rows id f = λ k. elim (id == k) [
  | false ↦ rows k
  | true ↦ elim (rows id) [ none ↦ none | some row ↦ some (f row) ]
]

abbrev pub upsert_at :
    (String → Option DeviceRow) → DeviceRow → (DeviceRow → DeviceRow) → String → Option DeviceRow
upsert_at rows inserted f = λ k. elim (inserted.id == k) [
  | false ↦ rows k
  | true ↦ elim (rows inserted.id) [ none ↦ some inserted | some row ↦ some (f row) ]
]

abbrev pub delete_at : (String → Option DeviceRow) → (DeviceRow → Bool) → String → Option DeviceRow
delete_at rows test = λ k. elim (rows k) [
  | none ↦ none
  | some row ↦ elim (test row) [ true ↦ none | false ↦ some row ]
]

-- The primary key: no two rows have the same id.
abbrev pub IsKeyed : List DeviceRow → Type 0
IsKeyed [] = Unit
IsKeyed (row ∷ rows) = (find_device rows row.id ≡ none) × IsKeyed rows

pub find_device-update_device :
    (rows : List DeviceRow) (id : String) (f : DeviceRow → DeviceRow) (k : String)
    → ((row : DeviceRow) → (f row).id ≡ row.id)
    → find_device (update_device rows id f) k ≡ change_at (find_device rows) id f k
unfolding find_device update_device
find_device-update_device [] id f k same = ground arith
find_device-update_device (row ∷ rows) id f k same = ground (
  arith,
  find_device-update_device rows id f k same,
  same row,
  string_eq.beq_iff row.id id,
  string_eq.beq_iff row.id k,
  string_eq.beq_iff id k,
)

pub find_device-upsert_row :
    (rows : List DeviceRow) (inserted : DeviceRow) (f : DeviceRow → DeviceRow) (k : String)
    → ((row : DeviceRow) → (f row).id ≡ row.id)
    → find_device (upsert_row rows inserted f) k ≡ upsert_at (find_device rows) inserted f k
unfolding find_device upsert_row
find_device-upsert_row [] inserted f k same = ground arith
find_device-upsert_row (row ∷ rows) inserted f k same = ground (
  arith,
  find_device-upsert_row rows inserted f k same,
  same row,
  string_eq.beq_iff row.id inserted.id,
  string_eq.beq_iff row.id k,
  string_eq.beq_iff inserted.id k,
)

find_device-delete_none :
    (rows : List DeviceRow) (test : DeviceRow → Bool) (k : String)
    → find_device rows k ≡ none
    → find_device (delete_where test rows) k ≡ none
unfolding find_device delete_where
find_device-delete_none [] test k h = h
find_device-delete_none (row ∷ rows) test k h = ground (arith, find_device-delete_none rows test k)

pub find_device-delete_where :
    (rows : List DeviceRow) (test : DeviceRow → Bool) (k : String)
    → IsKeyed rows
    → find_device (delete_where test rows) k ≡ delete_at (find_device rows) test k
unfolding find_device delete_where
find_device-delete_where [] test k keyed = refl
find_device-delete_where (row ∷ rows) test k keyed = elim (Bool-cases (row.id == k)) [
  | inl here ↦ elim (Bool-cases (test row)) [
    | inl deleted ↦
        rw (deleted, delete_at, here, deleted)
          (find_device-delete_none rows test k (
            subst (λ id. find_device rows id ≡ none) ((string_eq.beq_iff row.id k).0 here) keyed.0))
    | inr left ↦ rw (left, delete_at, here, left) refl
  ]
  | inr elsewhere ↦ elim (Bool-cases (test row)) [
    | inl deleted ↦
        rw (deleted, delete_at, elsewhere) (find_device-delete_where rows test k keyed.1)
    | inr left ↦ rw (left, delete_at, elsewhere) (find_device-delete_where rows test k keyed.1)
  ]
]

find_device-update_none :
    (rows : List DeviceRow) (id : String) (f : DeviceRow → DeviceRow) (k : String)
    → ((row : DeviceRow) → (f row).id ≡ row.id)
    → find_device rows k ≡ none
    → find_device (update_device rows id f) k ≡ none
unfolding find_device update_device
find_device-update_none [] id f k same h = h
find_device-update_none (row ∷ rows) id f k same h =
    ground (arith, find_device-update_none rows id f k same, same row)

find_device-upsert_other :
    (rows : List DeviceRow) (inserted : DeviceRow) (f : DeviceRow → DeviceRow) (k : String)
    → ((row : DeviceRow) → (f row).id ≡ row.id)
    → (inserted.id == k) ≡ false
    → find_device rows k ≡ none
    → find_device (upsert_row rows inserted f) k ≡ none
find_device-upsert_other rows inserted f k same differ h =
    find_device-upsert_row rows inserted f k same ∙ rw (upsert_at, differ) h

id-if :
    (row : DeviceRow) (f : DeviceRow → DeviceRow) (b : Bool)
    → ((r : DeviceRow) → (f r).id ≡ r.id)
    → (if b then f row else row).id ≡ row.id
id-if row f true same = same row
id-if row f false same = refl

-- Every statement keeps the ids apart.
pub IsKeyed-update_device :
    (rows : List DeviceRow) (id : String) (f : DeviceRow → DeviceRow)
    → ((row : DeviceRow) → (f row).id ≡ row.id)
    → IsKeyed rows
    → IsKeyed (update_device rows id f)
unfolding find_device update_device
IsKeyed-update_device [] id f same keyed = keyed
IsKeyed-update_device (row ∷ rows) id f same keyed = (
  find_device-update_none rows id f (if row.id == id then f row else row).id same
      (subst (λ k. find_device rows k ≡ none) (sym (id-if row f (row.id == id) same)) keyed.0),
  IsKeyed-update_device rows id f same keyed.1,
)

pub IsKeyed-upsert_row :
    (rows : List DeviceRow) (inserted : DeviceRow) (f : DeviceRow → DeviceRow)
    → ((row : DeviceRow) → (f row).id ≡ row.id)
    → IsKeyed rows
    → IsKeyed (upsert_row rows inserted f)
unfolding find_device upsert_row
IsKeyed-upsert_row [] inserted f same keyed = (refl, tt)
IsKeyed-upsert_row (row ∷ rows) inserted f same keyed = elim (Bool-cases (row.id == inserted.id)) [
  | inl here ↦ rw (here) (subst (λ k. find_device rows k ≡ none) (sym (same row)) keyed.0, keyed.1)
  | inr elsewhere ↦ rw (elsewhere) (
    find_device-upsert_other rows inserted f row.id same (beq_sym inserted.id row.id ∙ elsewhere)
        keyed.0,
    IsKeyed-upsert_row rows inserted f same keyed.1,
  )
]

pub IsKeyed-delete_where :
    (rows : List DeviceRow) (test : DeviceRow → Bool)
    → IsKeyed rows
    → IsKeyed (delete_where test rows)
unfolding find_device delete_where
IsKeyed-delete_where [] test keyed = keyed
IsKeyed-delete_where (row ∷ rows) test keyed = elim (Bool-cases (test row)) [
  | inl deleted ↦ rw (deleted) (IsKeyed-delete_where rows test keyed.1)
  | inr left ↦
      rw (left)
        (find_device-delete_none rows test row.id keyed.0, IsKeyed-delete_where rows test keyed.1)
]
