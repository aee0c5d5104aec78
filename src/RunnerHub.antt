-- ===== src/RunnerHub.antt =====
-- backend/internal/runnerhub/hub.go: the hub of connected runners. A session is a heap object with
-- an address, since a handler still holds the session it opened after another took its place. Each
-- operation here is one critical section of the code, in the order the handlers run them.
pub mod Superseded
pub mod Mailbox
use open_cuttles.Base.Int.{pos}
use open_cuttles.Base.{
  ◌^◌, Bool, str_eq, ◌%◌, String, List, ℕ, Option, ◌+◌, [], ◌∷◌, if◌then◌else◌, ◌==◌, true, false,
  none, some,
}
use open_cuttles.Go.{message, Result, ok, err}
use open_cuttles.Go.Strings.{decimal}
use Prim.Native.String.{◌++◌ as concat}

pub record Reply : Type 0 where
  pub id : String
  pub result : String
  pub error : String

-- A pending call: its id, and its channel of capacity one.
pub record Call : Type 0 where
  pub id : String
  pub mailbox : Option Reply

pub record Session : Type 0 where
  pub pending : List Call
  pub seq : ℕ
  pub closed : Bool

-- `reported` is what OnOnline was last called with for a device.
pub record Hub : Type 0 where
  pub sessions : String → Option ℕ
  pub heap : ℕ → Session
  pub allocated : ℕ
  pub reported : String → Option Bool

abbrev pub set_at {ℓ} : {A : Type ℓ} → String → A → (String → A) → String → A
set_at k a f j = if str_eq j k then a else f j

abbrev pub set_address {ℓ} : {A : Type ℓ} → ℕ → A → (ℕ → A) → ℕ → A
set_address k a f j = if j == k then a else f j

-- h.OnOnline, where it is set
unfoldable pub report : String → Bool → Hub → Hub
report device online h = record h { reported = set_at device (some online) h.reported }

unfoldable pub close : ℕ → Hub → Hub
close n h = record h { heap = set_address n (record (h.heap n) { closed = true }) h.heap }

unfoldable pub close_previous : Option ℕ → Hub → Hub
unfolding close
close_previous none h = h
close_previous (some n) h = close n h

unfoldable pub online : String → Hub → Bool
online device h = elim (h.sessions device) [ none ↦ false | some n ↦ true ]

unfoldable pub disconnect : String → Hub → Bool × Hub
unfolding close
disconnect device h = elim (h.sessions device) [
  | none ↦ (false, h)
  | some n ↦ (true, close n (record h { sessions = set_at device none h.sessions }))
]

-- StreamHandler up to its loop, for an authenticated runner: the new session's address.
unfoldable pub connect : String → Hub → ℕ × Hub
unfolding close_previous report
connect device h =
    let n = h.allocated in
    let fresh : Session = record { pending = []; seq = 0; closed = false } in
    let g = close_previous (h.sessions device) h in
    (
      n,
      report device true (record g {
        sessions = set_at device (some n) g.sessions;
        heap = set_address n fresh g.heap;
        allocated = n + 1;
      }),
    )

unfoldable pub is_session : Option ℕ → ℕ → Bool
is_session none n = false
is_session (some m) n = m == n

-- The deferred function of StreamHandler, when the stream of session `n` ends.
unfoldable pub hang_up : String → ℕ → Hub → Hub
unfolding is_session report
hang_up device n h =
    let kept =
      if is_session (h.sessions device) n then set_at device none h.sessions else h.sessions in
    report device false (record h { sessions = kept })

-- `pending[id] = ch`
unfoldable pub put_call : Call → List Call → List Call
put_call c [] = c ∷ []
put_call c (d ∷ rest) = if str_eq d.id c.id then c ∷ rest else d ∷ put_call c rest

unfoldable pub delete_call : String → List Call → List Call
delete_call id [] = []
delete_call id (d ∷ rest) = if str_eq d.id id then rest else d ∷ delete_call id rest

-- The start of session.call: the id of the command. `seq` is a uint64.
unfoldable pub begin_call : Session → String × Session
unfolding put_call decimal
begin_call s =
    let seq = (s.seq + 1) % 2 ^ 64 in
    let id = decimal (pos seq) in
    (id, record s { seq = seq; pending = put_call (record { id = id; mailbox = none }) s.pending })

-- The deferred function of session.call.
unfoldable pub end_call : String → Session → Session
unfolding delete_call
end_call id s = record s { pending = delete_call id s.pending }

-- A send on a channel of capacity one that does not wait.
unfoldable pub offer : Reply → Call → Call
offer r c = elim c.mailbox [ none ↦ record c { mailbox = some r } | some _ ↦ c ]

unfoldable pub deliver : Reply → List Call → List Call
unfolding offer
deliver r [] = []
deliver r (c ∷ rest) = if str_eq c.id r.id then offer r c ∷ rest else c ∷ deliver r rest

unfoldable pub resolve : Reply → Session → Session
unfolding deliver
resolve r s = record s { pending = deliver r s.pending }

-- The answer of session.call once its channel holds a reply.
unfoldable pub answer : String → Reply → Result String
answer device r =
    if str_eq r.error ""
    then ok r.result
    else err (message (concat "runner " (concat device (concat ": " r.error))))

unfoldable pub post_to : String → Reply → Hub → ℕ × Hub
unfolding resolve
post_to device r h = elim (h.sessions device) [
  | none ↦ (410, h)
  | some n ↦ (204, record h { heap = set_address n (resolve r (h.heap n)) h.heap })
]

-- ResultHandler: the status code. The device is what TokenAuth answers for the request's token, and
-- the reply is none where the body cannot be decoded.
unfoldable pub post_result : Option String → Option Reply → Hub → ℕ × Hub
unfolding post_to
post_result none body h = (401, h)
post_result (some device) none h = (400, h)
post_result (some device) (some r) h = post_to device r h
