-- ===== src/Stackful/Hook/Files/Opened.antt =====
-- The files that a coroutine knows, as it opens and closes them.
use cort_proto.Prelude.{
  ℕ, suc, ◌+◌, ◌^◌, ◌<◌, ◌≡◌, ◌≢◌, refl, sym, ap, ◌∙◌, arith, true, Option, none, some,
  if◌then◌else◌, ltb, ◌==◌, Bool-cases, inl, inr, ==_iff,
}
use Prim.Native.Nat.{bit_or}
use cort_proto.Net.Connection.{SysResult, done}
use cort_proto.Stackful.FdTable.{FdInfo, FdTable, plain, wait_fd}
use cort_proto.Stackful.FdTable.Map.{info_of, IsMap, wait_fd-Added}
use cort_proto.Stackful.FdTable.Map.Update.{
  info_of-wait_fd, info_of-remove_fd, info_of-wait_fd-other,
}
use cort_proto.Stackful.Hook.{HookWaiter, hooked}
use cort_proto.Stackful.Hook.Io.{io_loop, io_hook, turn}
use cort_proto.Stackful.Hook.Files.{
  register, register_result, cort_hooked_socket, cort_hooked_close, cort_hooked_accept4,
  sock_nonblock,
}

-- The entry of a file in the table of the thread's coroutine, if there is one.
abbrev pub known : ℕ → Option FdTable → Option FdInfo
known q none = none
known q (some t) = info_of q t

-- The coroutine, if there is one, has a proper table.
abbrev pub AreMaps : Option FdTable → Type 0
AreMaps none = Unit
AreMaps (some t) = IsMap t × (t.reserved_count + 1 < 2 ^ 16)

restored :
    (fd q : ℕ) (t t' : FdTable)
    → info_of fd t ≡ none
    → ((q : ℕ) → info_of q t' ≡ (if q == fd then some (plain fd) else info_of q t))
    → (if q == fd then none else info_of q t') ≡ info_of q t
restored fd q t t' new_file added = elim (Bool-cases (q == fd)) [
  | inl e ↦ rw e (sym new_file ∙ ap (λ f. info_of f t) (sym ((==_iff _ _).0 e)))
  | inr e ↦ rw e (added q ∙ rw e refl)
]

module _ {W : Type 0} (socket : ℕ → ℕ → ℕ → W → W × SysResult) (close : ℕ → W → W × SysResult) where
  -- A socket that a coroutine opens is known to it, without timeouts, and closing it takes it away: the
  -- files that the coroutine knows are then the same as before, with the same timeouts. The socket's
  -- number is not 0 and is not one of theirs.
  pub close-socket :
      (domain type protocol fd q : ℕ) (t : FdTable) (w : W)
      → IsMap t
      → t.reserved_count + 1 < 2 ^ 16
      → (socket domain (bit_or type sock_nonblock) protocol w).1 ≡ done fd
      → 0 < fd
      → info_of fd t ≡ none
      → (known fd (cort_hooked_socket socket domain type protocol (some t, w)).0.0
          ≡ some (plain fd))
        × (known q
              (cort_hooked_close close fd
                (cort_hooked_socket socket domain type protocol (some t, w)).0).0.0
            ≡ info_of q t)
  unfolding cort_hooked_socket cort_hooked_close register_result register
  close-socket domain type protocol fd q t w m small opened positive new_file =
      let e : ltb 0 fd ≡ true = ground arith in
      let (m', added) = info_of-wait_fd fd t m small new_file in
      let (_, removed) = info_of-remove_fd fd (wait_fd fd t).0 m' in
      let same : (fd == fd) ≡ true = ground arith in
      let found : info_of fd (wait_fd fd t).0 ≡ some (plain fd) = added fd ∙ rw same refl in
      (
        rw (opened, e) found,
        rw (opened, e) (removed q ∙ restored fd q t (wait_fd fd t).0 new_file added),
      )

-- Where `accept4` gives a connection at once, what is registered is the file that listens, once more: there
-- is one more entry, which is one of that file without timeouts, and none of the connection. So a replaced
-- call on the connection is the system call alone, which does not wait. The number of the connection is
-- not 0, it is not that of the listening file, and the coroutine did not know it; its table is proper and
-- has room for one more.
pub cort_hooked_accept4_forgets :
    {W : Type 0} (h : HookWaiter W) (accept4 : ℕ → ℕ → W → W × SysResult) (fuel fd flags n : ℕ)
    (t : FdTable) (info : FdInfo) (w w' : W)
    → IsMap t
    → t.reserved_count + 1 < 2 ^ 16
    → hooked fd (some t) ≡ some info
    → accept4 fd (bit_or flags sock_nonblock) w ≡ (w', done n)
    → 0 < n
    → n ≢ fd
    → info_of n t ≡ none
    → (t' : FdTable) × (cort_hooked_accept4 h accept4 (suc fuel) fd flags (some t, w)
        ≡ some ((some t', w'), done n))
      × (t'.reserved_count ≡ suc t.reserved_count)
      × (t'.fds_array t.reserved_count ≡ plain fd)
      × ((op : W → W × SysResult) (event : ℕ) (whattimeout : FdInfo → ℕ) (x : W)
          → io_hook h op fuel n event whattimeout (some t') x ≡ some (op x))
unfolding cort_hooked_accept4 register io_loop turn io_hook hooked
cort_hooked_accept4_forgets {W = W} h accept4 fuel fd flags n t info w w' m small is_known accepted
      positive ne gone =
    let e : ltb 0 n ≡ true = ground arith in
    let added = wait_fd-Added fd t m small in
    (
      (wait_fd fd t).0,
      rw (cort_hooked_accept4, is_known, io_loop, accepted, e)
          (ap (λ x. some ((some (wait_fd fd t).0, x), done n))
            (ap (λ (r : W × SysResult). r.0) accepted)),
      omega (arith, added.count),
      added.new,
      λ op event whattimeout x. rw (io_hook, info_of-wait_fd-other fd n t m small gone ne) refl,
    )
