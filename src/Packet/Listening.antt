-- ===== src/Packet/Listening.antt =====
-- `st_packet` does not change which PIDs are listened to.
use tsanalytics.Base.{
  ℕ, ◌==◌, ◌≡◌, ap, ◌∙◌, List, some, arith, Bool-cases, inl, inr, >>=-eq-some, sym,
}
use mathlib.Core.Option.{some-injective}
use native.Mathlib.Decide.{ℕ_discrete}
use tsanalytics.Head.{st_head}
use tsanalytics.Packet.{Cell, Store, start, copy, complete, put, head_zero, st_packet}

complete-enable :
    (pid : ℕ) (cell cell' : Cell) (block : List ℕ) (r : ℕ)
    → complete pid cell block ≡ some (r, cell')
    → cell'.enable ≡ cell.enable
unfolding complete
complete-enable pid cell cell' block r e = ground arith

copy-enable :
    (pid pos : ℕ) (cell cell' : Cell) (buf : List ℕ) (r : ℕ)
    → copy pid pos cell buf ≡ some (r, cell')
    → cell'.enable ≡ cell.enable
unfolding copy
copy-enable pid pos cell cell' buf r e = grind (arith, complete-enable)

start-enable :
    (pos : ℕ) (cell cell' : Cell) (live live' : ℕ) (buf : List ℕ)
    → start pos cell live buf ≡ some (cell', live')
    → cell'.enable ≡ cell.enable
unfolding start
start-enable pos cell cell' live live' buf e = ground arith

put-enable :
    (store : Store) (live pid q : ℕ) (cell : Cell)
    → cell.enable ≡ (store.cells pid).enable
    → ((put (record store { live = live }) pid cell).cells q).enable ≡ (store.cells q).enable
put-enable store live pid q cell e = elim (ℕ_discrete q pid) [
  | yes same ↦ rw same (ground (arith, e))
  | no ne ↦ ground arith
]

-- The two branches of `st_packet`, behind the header.
begun-enable :
    (store : Store) (pid pos q : ℕ) (buf : List ℕ) (cell cell' : Cell) (live r : ℕ)
    → start pos (store.cells pid) store.live buf ≡ some (cell, live)
    → copy pid pos cell buf ≡ some (r, cell')
    → ((put (record store { live = live }) pid cell').cells q).enable ≡ (store.cells q).enable
begun-enable store pid pos q buf cell cell' live r e e' = put-enable store live pid q cell' (
    copy-enable pid pos cell cell' buf r e'
    ∙ start-enable pos (store.cells pid) cell store.live live buf e)

continued-enable :
    (store : Store) (pid pos q : ℕ) (buf : List ℕ) (cell : Cell) (r : ℕ)
    → copy pid pos (store.cells pid) buf ≡ some (r, cell)
    → ((put store pid cell).cells q).enable ≡ (store.cells q).enable
continued-enable store pid pos q buf cell r e =
    put-enable store store.live pid q cell (copy-enable pid pos (store.cells pid) cell buf r e)

pub st_packet-enable :
    (store store' : Store) (buf : List ℕ) (r q : ℕ)
    → st_packet store buf ≡ some (r, store')
    → (store'.cells q).enable ≡ (store.cells q).enable
unfolding st_packet
st_packet-enable store store' buf r q e =
    let (head, parsed, rest) = >>=-eq-some (st_head head_zero buf) _ e in
    let pos = head.payload_start_pos in
    elim (Bool-cases (head.payload_unit_start_indicator == 1)) [
      | inl first ↦
          let ((cell, live), e₁, rest') =
            >>=-eq-some (start pos (store.cells head.pid) store.live buf) _ (rw first at rest) in
          let ((r', cell'), e₂, done) = >>=-eq-some (copy head.pid pos cell buf) _ rest' in
          rw (ap (λ p. p.1) (some-injective _ _ (sym done)))
            (begun-enable store head.pid pos q buf cell cell' live r' e₁ e₂)
      | inr more ↦ elim (Bool-cases ((store.cells head.pid).loading == 0)) [
        | inl idle ↦ ground arith
        | inr busy ↦
            let ((r', cell), e₂, done) =
              >>=-eq-some (copy head.pid pos (store.cells head.pid) buf) _
                (rw (more, busy) at rest) in
            rw (ap (λ p. p.1) (some-injective _ _ (sym done)))
              (continued-enable store head.pid pos q buf cell r' e₂)
      ]
    ]
