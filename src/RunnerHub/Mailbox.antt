-- ===== src/RunnerHub/Mailbox.antt =====
-- Which pending call a reply reaches.
use open_cuttles.Base.{
  Option-cases, eq_iff, str_eq, String, List, ◌≡◌, ◌≢◌, ◌∙◌, [], ◌∷◌, if◌then◌else◌, none, some,
  refl, sym, ap, arith,
}
use mathlib.Core.Option
use open_cuttles.RunnerHub.{Call, Reply, Session, begin_call, resolve, put_call, deliver, offer}
use open_cuttles.Store.Rows.{find}

find-put_call :
    (id : String) (c : Call) (cs : List Call)
    → find (λ (d : Call). d.id) id (put_call c cs)
      ≡ (if str_eq c.id id then some c else find (λ (d : Call). d.id) id cs)
unfolding find put_call
find-put_call id c [] = ground arith
find-put_call id c (d ∷ rest) =
    ground (arith, find-put_call id c rest, eq_iff d.id c.id, eq_iff d.id id, eq_iff c.id id)

find-deliver :
    (id : String) (r : Reply) (cs : List Call)
    → find (λ (d : Call). d.id) id (deliver r cs) ≡ (
        if str_eq r.id id
        then Option.map (offer r) (find (λ (d : Call). d.id) id cs)
        else find (λ (d : Call). d.id) id cs)
unfolding find deliver
find-deliver id r [] = ground arith
find-deliver id r (d ∷ rest) =
    ground (arith, find-deliver id r rest, eq_iff d.id r.id, eq_iff d.id id, eq_iff r.id id)

deliver_twice :
    (r s : Reply) (cs : List Call) → s.id ≡ r.id → deliver s (deliver r cs) ≡ deliver r cs
unfolding deliver offer
deliver_twice r s [] e = refl
deliver_twice r s (c ∷ rest) e =
    ground
      (arith, deliver_twice r s rest e, eq_iff c.id r.id, eq_iff c.id s.id, Option-cases c.mailbox)

abbrev pub empty_call : String → Call
empty_call id = record { id = id; mailbox = none }

routes :
    (cs : List Call) (id : String) (r : Reply)
    → r.id ≡ id
    → let sent = put_call (empty_call id) cs in
      (find (λ (d : Call). d.id) id (deliver r sent) ≡ some (record { id = id; mailbox = some r }))
      × ((other : String)
          → other ≢ id
          → find (λ (d : Call). d.id) other (deliver r sent) ≡ find (λ (d : Call). d.id) other cs)
unfolding offer
routes cs id r e = (
  rw (find-deliver, find-put_call) (ground (arith, eq_iff id id, eq_iff r.id id)),
  λ other ne. rw (find-deliver, find-put_call) (ground (arith, eq_iff id other, eq_iff r.id other)),
)

-- The reply that carries a new call's id lands in that call's channel and in no other call's, and a
-- second reply with that id is dropped.
pub begin_call-resolve :
    (s : Session) (r again : Reply)
    → let (id, t) = begin_call s in
      r.id ≡ id
      → again.id ≡ id
      → (find (λ (c : Call). c.id) id (resolve r t).pending
          ≡ some (record { id = id; mailbox = some r }))
        × ((other : String)
            → other ≢ id
            → find (λ (c : Call). c.id) other (resolve r t).pending
              ≡ find (λ (c : Call). c.id) other s.pending)
        × (resolve again (resolve r t) ≡ resolve r t)
unfolding begin_call resolve
begin_call-resolve s r again e f =
    let id = (begin_call s).0 in
    let sent = put_call (empty_call id) s.pending in
    let (here, others) = routes s.pending id r e in
    (
      here,
      others,
      ap (λ cs. record (begin_call s).1 { pending = cs }) (deliver_twice r again sent (f ∙ sym e)),
    )
