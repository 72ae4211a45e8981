-- ===== src/Stackful/FdTable/Map.antt =====
-- The table as a map from open files to their entries.
pub mod Update
use cort_proto.Prelude.{
  ℕ, zero, suc, ◌+◌, ◌-◌, ◌^◌, ◌≤◌, ◌<◌, ◌≡◌, ◌≢◌, ◌⊎◌, refl, sym, ap, ◌∙◌, arith, Bool-cases, true,
  false, Option, none, some, if◌then◌else◌, ltb, leb, ◌==◌, inl, inr, update, update_self,
  update_ne, ==_iff, branch_if,
}
use cort_proto.Stackful.FdTable.{
  FdInfo, FdTable, wait_fd, is_full, enlarge, append, first_block, put, put_fd, plain, find_from,
  find_fd_waiter, remove_from, remove_fd, drop_at, minus_one,
}

-- The entry of a file.
abbrev pub info_of : ℕ → FdTable → Option FdInfo
info_of q t = elim (find_fd_waiter q t) [ none ↦ none | some i ↦ some (t.fds_array i) ]

-- No file has two entries, and the count is that of the block.
pub record IsMap (t : FdTable) : Type 0 where
  pub null : t.allocated ≡ 0 → t.reserved_count ≡ 0
  pub word : t.reserved_count < 2 ^ 16
  pub distinct : (i j : ℕ) → i < j → j < t.reserved_count → (t.fds_array i).fd ≢ (t.fds_array j).fd

-- What a search from `i` over `k` entries says.
abbrev pub Missing : ℕ → ℕ → ℕ → FdTable → Type 0
Missing k i q t = (j : ℕ) → i ≤ j → j < i + k → (t.fds_array j).fd ≢ q

abbrev pub Place : ℕ → ℕ → ℕ → FdTable → ℕ → Type 0
Place k i q t j = (i ≤ j) × (j < i + k) × ((t.fds_array j).fd ≡ q)

find_from-cases :
    (k i q : ℕ) (t : FdTable)
    → ((find_from k i q t ≡ none) × (remove_from k i q t ≡ t) × Missing k i q t)
      ⊎ ((j : ℕ) × (find_from k i q t ≡ some j)
          × (remove_from k i q t ≡ drop_at j t)
          × Place k i q t j)
unfolding find_from remove_from
find_from-cases zero i q t = inl (refl, refl, λ j a b. omega arith)
find_from-cases (suc k) i q t = elim (Bool-cases ((t.fds_array i).fd == q)) [
  | inl e ↦ inr (i, rw e, rw e, (omega arith, omega arith, (==_iff _ _).0 e))
  | inr e ↦ elim (find_from-cases k (i + 1) q t) [
    | inl (f, r, m) ↦ inl (
      rw (e, f),
      rw (e, r),
      λ j a b h. elim (Bool-cases (i == j)) [
        | inl s ↦ ground (arith, ap (λ k. (t.fds_array k).fd) ((==_iff i j).0 s))
        | inr s ↦ m j (ground arith) (omega arith) h
      ],
    )
    | inr (j, f, r, (a, b, h)) ↦ inr (j, rw (e, f), rw (e, r), (omega arith, omega arith, h))
  ]
]

pub find-cases :
    (q : ℕ) (t : FdTable)
    → ((find_fd_waiter q t ≡ none) × (remove_fd q t ≡ t) × Missing t.reserved_count 0 q t)
      ⊎ ((j : ℕ) × (find_fd_waiter q t ≡ some j)
          × (remove_fd q t ≡ drop_at j t)
          × Place t.reserved_count 0 q t j)
unfolding find_fd_waiter remove_fd
find-cases q t = find_from-cases t.reserved_count 0 q t

pub unique :
    (t : FdTable)
    → IsMap t
    → (i j : ℕ) → i < t.reserved_count
    → j < t.reserved_count
    → (t.fds_array i).fd ≡ (t.fds_array j).fd
    → i ≡ j
unique t m i j h l e = elim (Bool-cases (ltb i j)) [
  | inl s ↦ absurd (m.distinct i j (ground arith) l e)
  | inr s ↦ elim (Bool-cases (ltb j i)) [
    | inl s' ↦ absurd (m.distinct j i (ground arith) h (sym e))
    | inr s' ↦ ground arith
  ]
]

-- The entry at `i`, of a file with no other.
pub info_of-at :
    (t : FdTable) (i q : ℕ)
    → IsMap t
    → i < t.reserved_count
    → (t.fds_array i).fd ≡ q
    → info_of q t ≡ some (t.fds_array i)
info_of-at t i q m h e = elim (find-cases q t) [
  | inl (f, r, none_here) ↦ absurd (none_here i (omega arith) (omega arith) e)
  | inr (j, f, r, (a, b, g)) ↦
      let same : j ≡ i = unique t m j i (omega arith) h (g ∙ sym e) in rw (info_of, f, same)
]

pub info_of-missing :
    (t : FdTable) (q : ℕ)
    → ((i : ℕ) → i < t.reserved_count → (t.fds_array i).fd ≢ q)
    → info_of q t ≡ none
info_of-missing t q none_here = elim (find-cases q t) [
  | inl (f, r, _) ↦ rw (info_of, f)
  | inr (j, f, r, (a, b, g)) ↦ absurd (none_here j (omega arith) g)
]

-- `enlarge` leaves the entries in use.
enlarge_entries :
    (t : FdTable) (i : ℕ) → i < t.reserved_count → (enlarge t).fds_array i ≡ t.fds_array i
unfolding enlarge put put_fd
enlarge_entries t i h = rw (
  not_at 5 (omega arith),
  not_at 4 (omega arith),
  not_at 3 (omega arith),
  not_at 2 (omega arith),
  not_at 1 (omega arith),
)
  where
    not_at : (d : ℕ) → 0 < d → (t.reserved_count + d == i) ≡ false
    not_at d positive = ground arith

enlarge_sizes :
    (t : FdTable)
    → ((enlarge t).reserved_count ≡ t.reserved_count)
      × ((enlarge t).allocated ≡ t.reserved_count + 5)
unfolding enlarge put put_fd
enlarge_sizes t = (refl, refl)

-- `t'` has one entry more than `t`, that of `fd`.
pub record Added (fd : ℕ) (t t' : FdTable) : Type 0 where
  pub count : t'.reserved_count ≡ t.reserved_count + 1
  pub block : t'.allocated ≢ 0
  pub new : t'.fds_array t.reserved_count ≡ plain fd
  pub old : (i : ℕ) → i < t.reserved_count → t'.fds_array i ≡ t.fds_array i

append-Added :
    (fd : ℕ) (t : FdTable)
    → t.reserved_count + 1 < 2 ^ 16
    → t.allocated ≢ 0
    → Added fd t (append fd t)
unfolding append put
append-Added fd t small some_block = record {
  count = omega arith;
  block = some_block;
  new = update_self t.fds_array t.reserved_count (plain fd);
  old = λ i h. update_ne t.fds_array (plain fd) (omega arith);
}

first_block-Added : (fd : ℕ) (t : FdTable) → t.reserved_count ≡ 0 → Added fd t (first_block fd t)
unfolding first_block put put_fd
first_block-Added fd t z = record {
  count = omega (arith, z);
  block = omega arith;
  new = rw z;
  old = λ i h. absurd (omega (arith, z, h));
}

enlarged-Added :
    (fd : ℕ) (t : FdTable) → t.reserved_count + 1 < 2 ^ 16 → Added fd t (append fd (enlarge t))
enlarged-Added fd t small =
    let (count, block) = enlarge_sizes t in
    let a = append-Added fd (enlarge t) (omega (arith, count, small)) (omega (arith, block)) in
    record {
      count = omega (arith, a.count, count);
      block = a.block;
      new = ap (append fd (enlarge t)).fds_array (sym count) ∙ a.new;
      old = λ i h. a.old i (omega (arith, count, h)) ∙ enlarge_entries t i h;
    }

pub wait_fd-Added :
    (fd : ℕ) (t : FdTable) → IsMap t → t.reserved_count + 1 < 2 ^ 16 → Added fd t (wait_fd fd t).0
unfolding wait_fd
wait_fd-Added fd t m small =
    branch_if (Added fd t) (t.allocated == 0) (first_block fd t) _
      (λ z. first_block-Added fd t (m.null (ground arith)))
      (λ z.
        branch_if (λ (u : FdTable). Added fd t (append fd u)) (is_full t) (enlarge t) t
          (λ _. enlarged-Added fd t small) (λ _. append-Added fd t small (ground arith)))
