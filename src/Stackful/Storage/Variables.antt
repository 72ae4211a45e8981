-- ===== src/Stackful/Storage/Variables.antt =====
-- The variables of a coroutine keep what is assigned to them.
use cort_proto.Prelude.{
  ℕ, ◌+◌, ◌*◌, ◌/◌, ◌%◌, ◌≤◌, ◌<◌, ◌≡◌, refl, sym, ap, ◌∙◌, arith, Bool, true, false, Option, none,
  some, if◌then◌else◌, ltb, leb, ◌==◌, Bool-cases, branch_if, inl, inr,
}
use Prim.Native.Nat.{bit_and}
use cort_proto.Prelude.Words.{bit_and-ones}
use cort_proto.Stackful.Storage.{
  Meta, Data, Storage, round_up, cleared, with_room, refreshed, get_local_storage, CoLocal, get,
  assign,
}

-- `round_up` gives the least multiple of 8 that is not below its argument.
pub round_up_lem : (n : ℕ) → (n ≤ round_up n) × (round_up n < n + 8) × (round_up n % 8 ≡ 0)
unfolding round_up
round_up_lem n =
    let split : n + 7 ≡ (n + 7) / 8 * 8 + (n + 7) % 8 = omega arith in
    let low : bit_and (n + 7) 7 ≡ (n + 7) % 8 =
      ap (λ x. bit_and x 7) split ∙ bit_and-ones 3 ((n + 7) / 8) ((n + 7) % 8) (omega arith) in
    omega (arith, low)

-- What the entry at `i` holds, within the block.
abbrev pub entry : ℕ → Storage → Option Data
entry i s = if ltb i s.capacity then s.cells i else none

entry-cleared :
    (from to i : ℕ) (cells : ℕ → Option Data)
    → from ≤ to
    → (if ltb i to then cleared from to cells i else none) ≡ (if ltb i from then cells i else none)
unfolding cleared
entry-cleared from to i cells h = elim (Bool-cases (ltb i from)) [
  | inl e ↦
      let inside : ltb i to ≡ true = ground arith in
      let before : leb from i ≡ false = ground arith in rw (e, inside, before) refl
  | inr e ↦
      let behind : leb from i ≡ true = ground arith in
      elim (Bool-cases (ltb i to)) [ inl f ↦ rw (e, f, behind) refl | inr f ↦ rw (e, f) refl ]
]

-- Room for more leaves what the block holds.
entry-with_room : (need i : ℕ) (s : Storage) → entry i (with_room need s) ≡ entry i s
unfolding with_room
entry-with_room need i s =
    branch_if (λ (t : Storage). entry i t ≡ entry i s) (s.capacity == 0) _ _
      (λ z.
        let z' : s.capacity ≡ 0 = ground arith in
        entry-cleared 0 (round_up need) i s.cells (omega arith)
        ∙ ap (λ (c : ℕ). if ltb i c then s.cells i else none) (sym z'))
      (λ _.
        branch_if (λ (t : Storage). entry i t ≡ entry i s) (ltb s.capacity need) _ s
          (λ l.
            entry-cleared s.capacity (round_up need) i s.cells
              (ground (arith, (round_up_lem need).0)))
          (λ _. refl))

capacity-with_room : (need : ℕ) (s : Storage) → need ≤ (with_room need s).capacity
unfolding with_room
capacity-with_room need s =
    branch_if (λ (t : Storage). need ≤ t.capacity) (s.capacity == 0) _ _
      (λ _. (round_up_lem need).0)
      (λ _.
        branch_if (λ (t : Storage). need ≤ t.capacity) (ltb s.capacity need) _ s
          (λ _. (round_up_lem need).0) (λ l. ground arith))

-- The entry of a variable in a block with room for it.
entry_in : (m : Meta) (s : Storage) → (with_room (m.offset + 1) s).cells m.offset ≡ entry m.offset s
entry_in m s =
    let room = capacity-with_room (m.offset + 1) s in
    let inside : ltb m.offset (with_room (m.offset + 1) s).capacity ≡ true = ground (arith, room) in
    ap (λ (b : Bool). if b then (with_room (m.offset + 1) s).cells m.offset else none) (sym inside)
    ∙ entry-with_room (m.offset + 1) m.offset s

-- The data of a variable, as what the block holds says.
data_of :
    (m : Meta) (init_value : ℕ) (s : Storage)
    → (get_local_storage m init_value s).1 ≡ refreshed m init_value (entry m.offset s)
unfolding get_local_storage
data_of m init_value s = ap (refreshed m init_value) (entry_in m s)

version-refreshed :
    (m : Meta) (init_value : ℕ) (o : Option Data) → (refreshed m init_value o).version ≡ m.version
unfolding refreshed
version-refreshed m init_value none = refl
version-refreshed m init_value (some d) = elim (Bool-cases (d.version == m.version)) [
  | inl e ↦ rw e (ground (arith, e))
  | inr e ↦ rw e refl
]

entry-assign :
    (x : CoLocal) (v j : ℕ) (s : Storage)
    → entry j (assign x v s) ≡ (
        if x.meta.offset == j
        then some (record { value = v; version = x.meta.version })
        else entry j s)
unfolding assign get_local_storage
entry-assign x v j s =
    let m = x.meta in
    let room = capacity-with_room (m.offset + 1) s in
    elim (Bool-cases (m.offset == j)) [
      | inl e ↦
          let inside : ltb j (with_room (m.offset + 1) s).capacity ≡ true = ground (arith, room) in
          rw (e, inside)
            (ap (λ (n : ℕ). some (record { value = v; version = n }))
              (version-refreshed m x.init_value ((with_room (m.offset + 1) s).cells m.offset)))
      | inr e ↦ rw e (entry-with_room (m.offset + 1) j s)
    ]

-- A variable reads what was last assigned to it. A variable of another place is not changed, and one of
-- the same place that is not the same version reads its own first value.
pub get-assign :
    (x y : CoLocal) (v : ℕ) (s : Storage)
    → (get y (assign x v s)).1 ≡ (
        if x.meta.offset == y.meta.offset
        then (if x.meta.version == y.meta.version then v else y.init_value)
        else (get y s).1)
unfolding get
get-assign x y v s =
    let read : (t : Storage)
        → (get y t).1 ≡ (refreshed y.meta y.init_value (entry y.meta.offset t)).value =
      λ t. ap (λ (d : Data). d.value) (data_of y.meta y.init_value t) in
    let m = x.meta in
    let written = entry-assign x v y.meta.offset s in
    elim (Bool-cases (m.offset == y.meta.offset)) [
      | inl e ↦ elim (Bool-cases (m.version == y.meta.version)) [
        | inl f ↦ read (assign x v s) ∙ rw (written, e, refreshed, f) refl
        | inr f ↦ read (assign x v s) ∙ rw (written, e, refreshed, f) refl
      ]
      | inr e ↦ read (assign x v s) ∙ rw (written, e) (sym (read s))
    ]
