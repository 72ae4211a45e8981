-- ===== src/Stackful/Hook/Select/Registered.antt =====
-- Which files `select` waits for.
use cort_proto.Prelude.{ℕ, zero, suc, ◌^◌, ◌<◌, ◌≡◌, refl, arith, some, ◌==◌, false}
use cort_proto.Prelude.Words.{sub32}
use cort_proto.Net.Connection.{SysResult}
use cort_proto.Stackful.Hook.{HookWaiter}
use cort_proto.Stackful.Hook.Poll.{Calls}
use cort_proto.Stackful.Hook.Select.{Selected, Timeval, add_file, add_selected}

module _ {W : Type 0} (h : HookWaiter W) (sys : Calls W)
    (select : ℕ → Selected → Timeval → W → W × SysResult × Selected) where
  -- The files from `k` down to 1 are added.
  pub add_down_to_one : ℕ → ℕ → Selected → W → W
  add_down_to_one epfd zero s w = w
  add_down_to_one epfd (suc k) s w =
      add_down_to_one epfd k s (add_file h sys select epfd (suc k) s w)

  -- With enough fuel the loop of `select` ends, and has added the files of the sets from `nfds - 1` down
  -- to 1, the last one first: file 0 is never added. The number of files is not 0.
  pub add_selected_lem :
      (fuel epfd k : ℕ) (s : Selected) (w : W)
      → suc k < 2 ^ 32
      → k < fuel
      → add_selected h sys select fuel epfd (suc k) s w ≡ some (add_down_to_one epfd k s w)
  unfolding add_selected add_down_to_one
  add_selected_lem zero epfd k s w small enough = absurd (omega arith)
  add_selected_lem (suc fuel) epfd zero s w small enough = refl
  add_selected_lem (suc fuel) epfd (suc k) s w small enough =
      let e : sub32 (suc (suc k)) 1 ≡ suc k = omega arith in
      let e' : (suc k == 0) ≡ false = ground arith in
      rw (add_selected, e, e', e)
        (add_selected_lem fuel epfd k s (add_file h sys select epfd (suc k) s w) (omega arith)
          (omega arith))
