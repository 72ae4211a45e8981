-- ===== src/Stackful/FdTable/Map/Update.antt =====
-- What `wait_fd` and `remove_fd` do to the map.
use cort_proto.Prelude.{
  ℕ, ◌+◌, ◌-◌, ◌^◌, ◌%◌, ◌<◌, ◌≡◌, ◌≢◌, refl, sym, ap, ◌∙◌, arith, Bool-cases, true, false, none,
  some, if◌then◌else◌, ltb, ◌==◌, inl, inr, update, ==_iff,
}
use cort_proto.Stackful.FdTable.{
  FdInfo, FdTable, wait_fd, put, plain, find_fd_waiter, remove_fd, drop_at,
}
use cort_proto.Stackful.FdTable.Map.{
  info_of, IsMap, find-cases, info_of-at, info_of-missing, unique, Added, wait_fd-Added,
}

-- A file with no entry in the map has none in the array.
absent :
    (fd : ℕ) (t : FdTable)
    → IsMap t
    → info_of fd t ≡ none
    → (i : ℕ) → i < t.reserved_count
    → (t.fds_array i).fd ≢ fd
absent fd t m e i h g = let found = info_of-at t i fd m h g in cc

module _ (fd : ℕ) (t t' : FdTable) (m : IsMap t) (a : Added fd t t')
    (small : t.reserved_count + 1 < 2 ^ 16) (new_file : info_of fd t ≡ none) where
  -- The entry at the new count, or one of the old.
  entry_of :
      (P : ℕ → FdInfo → Type 0)
      → P t.reserved_count (plain fd)
      → ((i : ℕ) → i < t.reserved_count → P i (t.fds_array i))
      → (i : ℕ) → i < t'.reserved_count
      → P i (t'.fds_array i)
  entry_of P p f i h = elim (Bool-cases (ltb i t.reserved_count)) [
    | inl e ↦ let below : i < t.reserved_count = ground arith in rw (a.old i below) (f i below)
    | inr e ↦ let e' : i ≡ t.reserved_count = ground (arith, a.count) in rw (e', a.new) p
  ]

  Added-IsMap : IsMap t'
  Added-IsMap = record {
    null = λ z. absurd (a.block z);
    word = omega (arith, a.count);
    distinct = λ i j l h.
        let below : i < t.reserved_count = omega (arith, a.count) in
        entry_of (λ k (x : FdInfo). i < k → (t'.fds_array i).fd ≢ x.fd)
          (λ _. rw (a.old i below) (absent fd t m new_file i below))
          (λ k g l'. rw (a.old i below) (m.distinct i k l' g)) j h l;
  }

  info_of-Added : (q : ℕ) → info_of q t' ≡ (if q == fd then some (plain fd) else info_of q t)
  info_of-Added q = elim (Bool-cases (q == fd)) [
    | inl e ↦
        let e' : fd ≡ q = sym ((==_iff q fd).0 e) in
        rw e (
          info_of-at t' t.reserved_count q Added-IsMap (omega (arith, a.count))
            (ap (λ (x : FdInfo). x.fd) a.new ∙ e')
          ∙ ap some a.new)
    | inr e ↦ elim (find-cases q t) [
      | inl (f, r, gone) ↦
          rw (e, info_of-missing t q (λ i h. gone i (omega arith) (omega arith)))
            (info_of-missing t' q (
              entry_of (λ k (x : FdInfo). x.fd ≢ q) (ground arith)
                (λ i h. gone i (omega arith) (omega arith))))
      | inr (j, f, r, (l, h, g)) ↦
          let h' : j < t.reserved_count = omega arith in
          rw (e, info_of-at t j q m h' g)
            (info_of-at t' j q Added-IsMap (omega (arith, a.count))
                (ap (λ (x : FdInfo). x.fd) (a.old j h') ∙ g)
              ∙ ap some (a.old j h'))
    ]
  ]

-- A file that is neither in the map nor added is not in the new map, whatever is added twice.
info_of-Added-other :
    (fd q : ℕ) (t t' : FdTable)
    → IsMap t
    → Added fd t t'
    → info_of q t ≡ none
    → q ≢ fd
    → info_of q t' ≡ none
info_of-Added-other fd q t t' m a gone ne = info_of-missing t' q (λ i h.
    elim (Bool-cases (ltb i t.reserved_count)) [
      | inl e ↦
          let below : i < t.reserved_count = ground arith in
          rw (a.old i below) (absent q t m gone i below)
      | inr e ↦
          let e' : i ≡ t.reserved_count = ground (arith, a.count) in
          rw (e', a.new) (λ s. ne (sym s))
    ])

pub info_of-wait_fd-other :
    (fd q : ℕ) (t : FdTable)
    → IsMap t
    → t.reserved_count + 1 < 2 ^ 16
    → info_of q t ≡ none
    → q ≢ fd
    → info_of q (wait_fd fd t).0 ≡ none
info_of-wait_fd-other fd q t m small gone ne =
    info_of-Added-other fd q t _ m (wait_fd-Added fd t m small) gone ne

-- Where the entry at `k` comes from when that at `j` has been dropped.
abbrev source : ℕ → ℕ → ℕ → ℕ
source last j k = if k == j then last else k

-- `t'` is `t` without its entry at `j`.
record Dropped (j : ℕ) (t t' : FdTable) : Type 0 where
  count : t'.reserved_count ≡ t.reserved_count - 1
  block : t'.allocated ≡ t.allocated
  entries :
      (k : ℕ)
      → k < t'.reserved_count
      → t'.fds_array k ≡ t.fds_array (source (t.reserved_count - 1) j k)

drop_at-Dropped :
    (j : ℕ) (t : FdTable)
    → j < t.reserved_count
    → t.reserved_count < 2 ^ 16
    → Dropped j t (drop_at j t)
unfolding drop_at put
drop_at-Dropped j t h small =
    let e : (t.reserved_count + 2 ^ 16 - 1) % 2 ^ 16 ≡ t.reserved_count - 1 = omega arith in
    elim (Bool-cases (j == t.reserved_count - 1)) [
      | inl s ↦
          rw (e, s)
            (record {
              count = refl;
              block = refl;
              entries = λ k l. let d : (k == j) ≡ false = ground arith in rw d refl;
            })
      | inr s ↦ rw (e, s) (record { count = refl; block = refl; entries = λ k l. swapped k })
    ]
  where
    swapped :
        (k : ℕ)
        → update t.fds_array j (t.fds_array (t.reserved_count - 1)) k
          ≡ t.fds_array (source (t.reserved_count - 1) j k)
    swapped k = elim (Bool-cases (k == j)) [
      | inl c ↦ let c' : (j == k) ≡ true = ground arith in rw (c, c') refl
      | inr c ↦ let c' : (j == k) ≡ false = ground arith in rw (c, c') refl
    ]

module _ (j : ℕ) (t t' : FdTable) (m : IsMap t) (d : Dropped j t t')
    (h : j < t.reserved_count) where
  abbrev last : ℕ
  last = t.reserved_count - 1

  -- Every entry of `t'` is one of `t`, but not that at `j`.
  kept :
      (P : ℕ → FdInfo → Type 0)
      → ((k i : ℕ)
          → i < t.reserved_count
          → i ≢ j
          → i ≡ source (t.reserved_count - 1) j k
          → P k (t.fds_array i))
      → (k : ℕ) → k < t'.reserved_count
      → P k (t'.fds_array k)
  kept P f k l = rw (d.entries k l) (
      f k (source (t.reserved_count - 1) j k) (ground (arith, d.count)) (ground (arith, d.count))
        refl)

  Dropped-IsMap : IsMap t'
  Dropped-IsMap = record {
    null = λ z. omega (arith, m.null (omega (arith, d.block)), d.count);
    word = omega (arith, d.count, m.word);
    distinct = λ a b l below e.
        let x = source last j a in
        let y = source last j b in
        let same : x ≡ y = unique t m x y (ground (arith, d.count)) (ground (arith, d.count)) (
          sym (ap (λ (z : FdInfo). z.fd) (d.entries a (omega arith)))
          ∙ e
          ∙ ap (λ (z : FdInfo). z.fd) (d.entries b below)) in
        ground (arith, d.count);
  }

  -- The entry at `k` is that which was at `i`.
  moved :
      (i q k : ℕ)
      → k < t'.reserved_count
      → source last j k ≡ i
      → (t.fds_array i).fd ≡ q
      → info_of q t' ≡ some (t.fds_array i)
  moved i q k l s g =
      let e : t'.fds_array k ≡ t.fds_array i = d.entries k l ∙ ap t.fds_array s in
      info_of-at t' k q Dropped-IsMap l (ap (λ (x : FdInfo). x.fd) e ∙ g) ∙ ap some e

  info_of-Dropped : (q : ℕ) → info_of q t' ≡ (if q == (t.fds_array j).fd then none else info_of q t)
  info_of-Dropped q = elim (Bool-cases (q == (t.fds_array j).fd)) [
    | inl e ↦ rw e (
        info_of-missing t' q (
          kept (λ k (x : FdInfo). x.fd ≢ q)
            (λ k i l n s g. n (unique t m i j l h (g ∙ (==_iff _ _).0 e)))))
    | inr e ↦ elim (find-cases q t) [
      | inl (f, r, gone) ↦
          rw (e, info_of-missing t q (λ i l. gone i (omega arith) (omega arith)))
            (info_of-missing t' q
              (kept (λ k (x : FdInfo). x.fd ≢ q) (λ k i l n s. gone i (omega arith) (omega arith))))
      | inr (i, f, r, (_, l, g)) ↦
          let l' : i < t.reserved_count = omega arith in
          let other : i ≢ j = λ s. ground (arith, ap (λ (k : ℕ). (t.fds_array k).fd) s) in
          rw (e, info_of-at t i q m l' g)
            (elim (Bool-cases (i == last)) [
              | inl s ↦ moved i q j (ground (arith, d.count)) (ground (arith, d.count)) g
              | inr s ↦ moved i q i (ground (arith, d.count)) (ground (arith, d.count)) g
            ])
    ]
  ]

-- `wait_fd` of a file with no entry gives it a plain one, leaves the entries of the other files, and
-- keeps one entry for each file; the new count is below 2 ^ 16.
pub info_of-wait_fd :
    (fd : ℕ) (t : FdTable)
    → IsMap t
    → t.reserved_count + 1 < 2 ^ 16
    → info_of fd t ≡ none
    → IsMap (wait_fd fd t).0
      × ((q : ℕ) → info_of q (wait_fd fd t).0 ≡ (if q == fd then some (plain fd) else info_of q t))
info_of-wait_fd fd t m small new_file =
    let a = wait_fd-Added fd t m small in
    (Added-IsMap fd t _ m a small new_file, info_of-Added fd t _ m a small new_file)

-- `remove_fd` takes away the entry of its file, and no other, whatever place it had, and keeps one
-- entry for each file.
pub info_of-remove_fd :
    (fd : ℕ) (t : FdTable)
    → IsMap t
    → IsMap (remove_fd fd t)
      × ((q : ℕ) → info_of q (remove_fd fd t) ≡ (if q == fd then none else info_of q t))
info_of-remove_fd fd t m = elim (find-cases fd t) [
  | inl (f, r, gone) ↦ (rw r m, λ q. rw r (same q f))
  | inr (j, f, r, (_, l, g)) ↦
      let h : j < t.reserved_count = omega arith in
      let d = drop_at-Dropped j t h m.word in
      (rw r (Dropped-IsMap j t _ m d h), λ q. rw (r, sym g) (info_of-Dropped j t _ m d h q))
]
  where
    same :
        (q : ℕ) → find_fd_waiter fd t ≡ none → info_of q t ≡ (if q == fd then none else info_of q t)
    same q f = elim (Bool-cases (q == fd)) [
      | inl e ↦ let e' : q ≡ fd = (==_iff _ _).0 e in rw (e, e', info_of, f) refl
      | inr e ↦ rw e refl
    ]
