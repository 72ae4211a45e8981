-- ===== src/Net/Listener/Files.antt =====
-- Which files a listener leaves open.
use cort_proto.Prelude.{ℕ, ◌≡◌, ◌≢◌, ◌⊎◌, Bool, true, false, if◌then◌else◌, ◌==◌}
use cort_proto.Net.{epollin}
use cort_proto.Net.Connection.{FileWaiter, done, failed}
use cort_proto.Net.Listener.{Listener, ListenOpt, ListenSys, State}

-- What is documented of the system calls: `socket` opens a file that was not open and `close` closes its
-- file; the others, and the waiter's members, open and close none, and the waiter tells the events that it
-- was last asked to wait for.
pub record Files {W : Type 0} (v : FileWaiter W) (sys : ListenSys W) : Type 0 where
  pub is_open : ℕ → W → Bool
  pub socket_done :
      (w : W) (fd : ℕ)
      → (sys.socket w).1 ≡ done fd
      → (is_open fd w ≡ false)
        × ((q : ℕ) → is_open q (sys.socket w).0 ≡ (if q == fd then true else is_open q w))
  pub socket_failed :
      (w : W) (e q : ℕ) → (sys.socket w).1 ≡ failed e → is_open q (sys.socket w).0 ≡ is_open q w
  pub close_one :
      (fd q : ℕ) (w : W) → is_open q (sys.close fd w) ≡ (if q == fd then false else is_open q w)
  pub nonblocking_keeps : (fd q : ℕ) (w : W) → is_open q (sys.set_nonblocking fd w).0 ≡ is_open q w
  pub option_keeps :
      (o : ListenOpt) (fd q : ℕ) (w : W) → is_open q (sys.set_option o fd w) ≡ is_open q w
  pub bind_keeps : (fd port q : ℕ) (w : W) → is_open q (sys.bind fd port w).0 ≡ is_open q w
  pub listen_keeps : (fd n q : ℕ) (w : W) → is_open q (sys.listen fd n w).0 ≡ is_open q w
  pub set_fd_keeps : (fd q : ℕ) (w : W) → is_open q (v.set_cort_fd fd w) ≡ is_open q w
  pub request_keeps : (r q : ℕ) (w : W) → is_open q (v.set_poll_request r w) ≡ is_open q w
  pub poll_request-set : (r : ℕ) (w : W) → v.poll_request (v.set_poll_request r w) ≡ r

module _ {W : Type 0} (v : FileWaiter W) (sys : ListenSys W) (d : Files v sys) where
  -- Of two worlds, the second has the file `fd` open besides what the first has.
  abbrev pub HasOpened : ℕ → W → W → Type 0
  HasOpened fd w0 w =
      (d.is_open fd w0 ≡ false)
      × ((q : ℕ) → d.is_open q w ≡ (if q == fd then true else d.is_open q w0))

  -- How a call ends that began in the world `w0`.
  abbrev pub Leaves : W → State v sys × ℕ → Type 0
  Leaves w0 ((l, w), r) =
      ((r ≡ 0) × (v.poll_request w ≡ epollin) × HasOpened (v.cort_fd w) w0 w)
      ⊎ (r ≢ 0) × (l.errnum ≡ r) × ((q : ℕ) → d.is_open q w ≡ d.is_open q w0)
