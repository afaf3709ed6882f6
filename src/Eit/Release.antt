-- ===== src/Eit/Release.antt =====
-- What `free_eit` frees of what `st_eit` has made, and what is lost.
use mathlib.Core.Option.{some-injective}
use mathlib.Core.Path.{subst}
use tsanalytics.Base.{
  ℕ, zero, suc, ◌+◌, ◌≤◌, ◌<◌, ◌≡◌, refl, sym, ap, ltb, leb, if◌then◌else◌, Bool-cases, inl, inr,
  List, [], ◌∷◌, Option, none, some, length, u64, u8, u16, Bool, true, false, arith,
}
use tsanalytics.Reader.{Reader, get, run, ◌>>=◌, return}
use tsanalytics.Eit.{
  Descriptor, Event, Eit, read_desc, desc_loop, read_event, event_loop, eit_ok, st_eit, free_descs,
  free_events, free_eit,
}

-- Each event has at most 100 descriptors.
abbrev AllFew : List Event → Type 0
AllFew [] = Unit {0}
AllFew (ev ∷ rest) = (length ev.desc ≤ 100) × AllFew rest

free_descs-all :
    (left : ℕ) (descs : List Descriptor) → length descs ≤ left → free_descs left descs ≡ []
unfolding free_descs
free_descs-all zero [] few = refl
free_descs-all zero (d ∷ rest) few = absurd (omega arith)
free_descs-all (suc left) [] few = refl
free_descs-all (suc left) (d ∷ rest) few = free_descs-all left rest (omega arith)

free_events-all :
    (left : ℕ) (events : List Event)
    → length events ≤ left
    → AllFew events
    → free_events left events ≡ ([], [])
unfolding free_events
free_events-all zero [] many few = refl
free_events-all zero (ev ∷ rest) many few = absurd (omega arith)
free_events-all (suc left) [] many few = refl
free_events-all (suc left) (ev ∷ rest) many few =
    rw (free_events-all left rest (omega arith) few.1, free_descs-all 100 ev.desc few.0)

-- A link of a chain that gives a value has one itself.
link_of {ℓ κ} :
    {A : Type ℓ} {B : Type κ} (o : Option (A × ℕ)) (f : A → Reader B) {r : B × ℕ}
    → Path (Option (B × ℕ)) (elim o [ none ↦ none | some (a, boff) ↦ f a boff ]) (some r)
    → (a : A) × (boff : ℕ) × (o ≡ some (a, boff)) × (f a boff ≡ some r)
link_of none f e = cc
link_of (some (a, boff)) f e = (a, boff, refl, e)

link {ℓ κ} :
    {A : Type ℓ} {B : Type κ} (m : Reader A) (f : A → Reader B) (boff : ℕ) {r : B × ℕ}
    → (m >>= f) boff ≡ some r
    → (a : A) × (boff' : ℕ) × (m boff ≡ some (a, boff')) × (f a boff' ≡ some r)
link m f boff e = link_of (m boff) f e

desc_loop-few :
    (left : ℕ) (buf : List ℕ) (len loaded boff end : ℕ) (descs : List Descriptor)
    → desc_loop left buf len loaded boff ≡ some (descs, end)
    → length descs ≤ left
unfolding desc_loop
desc_loop-few zero buf len loaded boff end descs e =
    omega (arith, ap (λ p. length p.0) (some-injective _ _ e))
desc_loop-few (suc left) buf len loaded boff end descs e = elim (Bool-cases (leb len loaded)) [
  | inl done ↦ omega (arith, ap (λ p. length p.0) (some-injective _ _ (rw (desc_loop, done) at e)))
  | inr more ↦
      let (d, at, read, rest) = link (read_desc buf) _ boff (rw (desc_loop, more) at e) in
      let (ds, at', read', last) =
        link (desc_loop left buf len (u64 (loaded + d.descriptor_length + 2))) _ at rest in
      omega (
        arith,
        ap (λ p. length p.0) (some-injective _ _ last),
        desc_loop-few left buf len (u64 (loaded + d.descriptor_length + 2)) at at' ds read',
      )
]

-- What is lost: nothing, or one event whose descriptors are longer than the section.
pub data Lost (len : ℕ) : List Event → Type 0 where
  nothing : Lost len []
  too_long : {ev : Event} → len < ev.descriotors_loop_length → Lost len (ev ∷ [])

-- The events of a loop with so many rounds, and what it loses.
record Held (left len : ℕ) (events lost : List Event) : Type 0 where
  many : length events ≤ left
  few : AllFew events
  gone : Lost len lost

-- The loop ends without an event.
stands :
    (left len : ℕ) (lost : List Event)
    → Lost len lost
    → {events lost' : List Event} {boff end : ℕ}
    → Path ((List Event × List Event) × ℕ) (([], lost), boff) ((events, lost'), end)
    → Held left len events lost'
stands left len lost l e =
    subst (λ r. Held left len r.0.0 r.0.1) e (record { many = omega arith; few = tt; gone = l })

abbrev behind_event : Event → List Descriptor → List Event × List Event → List Event × List Event
behind_event ev desc (rest, lost) = (record ev { desc = desc } ∷ rest, lost)

-- An event that is put in front of the rest of the list.
event-few :
    (left : ℕ) (buf : List ℕ) (len loaded at end : ℕ) (ev : Event) (events lost : List Event)
    → ((boff end : ℕ) (rest lost : List Event)
        → event_loop left buf len loaded boff ≡ some ((rest, lost), end)
        → Held left len rest lost)
    → (desc_loop 100 buf ev.descriotors_loop_length 0 >>= λ desc.
          event_loop left buf len loaded >>= λ r. return (behind_event ev desc r))
        at
      ≡ some ((events, lost), end)
    → Held (suc left) len events lost
event-few left buf len loaded at end ev events lost ih e =
    let (desc, at₁, descs, e₁) = link (desc_loop 100 buf ev.descriotors_loop_length 0) _ at e in
    let ((rest, behind_lost), at₂, behind, last) = link (event_loop left buf len loaded) _ at₁ e₁ in
    let h = ih at₁ at₂ rest behind_lost behind in
    subst (λ r. Held (suc left) len r.0 r.1) (ap (λ p. p.0) (some-injective _ _ last))
      (record {
        many = omega (arith, h.many);
        few = (desc_loop-few 100 buf ev.descriotors_loop_length 0 at at₁ desc descs, h.few);
        gone = h.gone;
      })

event_loop-few :
    (left : ℕ) (buf : List ℕ) (len loaded boff end : ℕ) (events lost : List Event)
    → event_loop left buf len loaded boff ≡ some ((events, lost), end)
    → Held left len events lost
unfolding event_loop
event_loop-few zero buf len loaded boff end events lost e =
    stands zero len [] nothing (some-injective _ _ e)
event_loop-few (suc left) buf len loaded boff end events lost e =
    elim (Bool-cases (leb len loaded)) [
      | inl done ↦
          stands (suc left) len [] nothing (some-injective _ _ (rw (event_loop, done) at e))
      | inr more ↦
          let (ev, at, read, rest) = link_of (read_event buf boff) _ (rw (event_loop, more) at e) in
          elim (Bool-cases (ltb len ev.descriotors_loop_length)) [
            | inl long ↦
                stands (suc left) len (ev ∷ []) (too_long {ev = ev} (ground arith))
                  (some-injective _ _ (rw long at rest))
            | inr fits ↦
                let loaded' : ℕ = u64 (loaded + (12 + ev.descriotors_loop_length)) in
                event-few left buf len loaded' at end ev events lost
                  (λ b n es ls e'. event_loop-few left buf len loaded' b n es ls e')
                  (rw fits at rest)
          ]
    ]

-- All that a chain can give satisfies `P`.
abbrev Gives {ℓ} : {A : Type ℓ} → (A → Type 0) → Reader A → Type ℓ
Gives {A = A} P m = (boff end : ℕ) (a : A) → m boff ≡ some (a, end) → P a

Gives-bind {ℓ κ} :
    {A : Type ℓ} {B : Type κ} {P : B → Type 0} (m : Reader A) (f : A → Reader B)
    → ((a : A) → Gives P (f a))
    → Gives P (m >>= f)
Gives-bind m f k boff end b e = let (a, boff', e', e'') = link m f boff e in k a boff' end b e''

Gives-run {ℓ} :
    {A : Type ℓ} {P : A → Type 0} (m : Reader A) {a : A} → run m ≡ some a → Gives P m → P a
Gives-run {A = A} {P = P} m {a} e g = invert (m 0) refl e
  where
    invert :
        (o : Option (A × ℕ))
        → m 0 ≡ o
        → Path (Option A) (elim o [ none ↦ none | some (b, boff) ↦ some b ]) (some a)
        → P a
    invert none is e = cc
    invert (some (b, boff)) is e = subst P (some-injective _ _ e) (g 0 boff b is)

-- A table whose events and descriptors `free_eit` frees, and the events behind its back.
abbrev IsFreed : ℕ × (Eit × List Event) → Type 0
IsFreed (r, (eit, lost)) = Held 100 eit.section_length eit.events lost

table-IsFreed :
    (ok : Bool) (out : Eit) (buf : List ℕ) (len : ℕ)
    → out.section_length ≡ len
    → out.events ≡ []
    → Gives IsFreed (
        if ok
        then (event_loop 100 buf len 16 >>= λ r. return (1, (record out { events = r.0 }, r.1)))
        else return (0, (out, [])))
table-IsFreed true out buf len same none_yet boff end a e =
    let ((events, lost), at, read, last) = link (event_loop 100 buf len 16) _ boff e in
    subst IsFreed (ap (λ p. p.0) (some-injective _ _ last)) (
      subst (λ n. Held 100 n events lost) (sym same)
        (event_loop-few 100 buf len 16 boff at events lost read))
table-IsFreed false out buf len same none_yet boff end a e =
    subst IsFreed (ap (λ p. p.0) (some-injective _ _ e))
      (record { many = rw none_yet (omega arith); few = rw none_yet tt; gone = nothing })

-- Whatever the bytes, if `st_eit` returns, then `free_eit` on its table leaves no event and no
-- descriptor of the table that is not freed. At most one event is lost: one whose loop of
-- descriptors is longer than the section.
pub free_eit-st_eit :
    (out eit : Eit) (lost : List Event) (buf : List ℕ) (r : ℕ)
    → st_eit out buf ≡ some (r, (eit, lost))
    → ((free_eit eit).1 ≡ ([], [])) × Lost eit.section_length lost
unfolding st_eit free_eit
free_eit-st_eit out eit lost buf r e =
    let h = Gives-run {P = IsFreed} _ e (
      Gives-bind (get buf 8) _ λ table. Gives-bind (get buf 1) _ λ syntax.
        Gives-bind (get buf 1) _ λ gomi₁. Gives-bind (get buf 2) _ λ gomi₂.
          Gives-bind (get buf 12) _ λ len. Gives-bind (get buf 16) _ λ service.
            Gives-bind (get buf 2) _ λ gomi₃. Gives-bind (get buf 5) _ λ version.
              Gives-bind (get buf 1) _ λ current. Gives-bind (get buf 8) _ λ section.
                Gives-bind (get buf 8) _ λ last. Gives-bind (get buf 16) _ λ stream.
                  Gives-bind (get buf 16) _ λ network. Gives-bind (get buf 8) _ λ segment.
                    Gives-bind (get buf 8) _ λ last_table.
                      table-IsFreed (eit_ok (u8 table) (u8 syntax) (u16 len)) _ buf (u16 len) refl
                        refl) in
    (free_events-all 100 eit.events h.many h.few, h.gone)
