-- ===== src/Locks/Semaphore/Wakeup.antt =====
-- The tasks that share a semaphore never leave a queue that could be served.
use cos_rs.Base.{
  ℕ, zero, suc, ◌+◌, ◌<◌, ◌≡◌, ◌⊎◌, refl, sym, ◌∙◌, subst, true, none, some, List, [], ◌∷◌, ◌++◌,
  ltb, get_elem?, set, All, inl, inr, Bool-cases, Option-cases, arith,
}
use cos_rs.Locks.Semaphore.{
  Future, Semaphore, or_same, is_waiting, is_giveup, deref, give_up, interfere, hand_out, settle,
  next_round, later_rounds, serve, release, try_acquire, acquire, take_grant,
}
use cos_rs.Locks.Semaphore.Live.{Queued, Waits, Blocked, Live, All-map, serve-Live}

-- While somebody is queued the counter is empty: `try_acquire` overtakes nobody.
abbrev pub Closed : Semaphore → Type 0
Closed s = (s.queue ≡ []) ⊎ (s.permits ≡ 0)

pub record Sound (s : Semaphore) : Type 0 where
  pub waits : Waits s.futures s.queue
  pub live : Live s
  pub closed : Closed s

pub permits-give_up : (i : ℕ) (s : Semaphore) → (give_up i s).permits ≡ s.permits
unfolding give_up
permits-give_up i s = ground arith

permits-interfere : (is : List ℕ) (s : Semaphore) → (interfere is s).permits ≡ s.permits
unfolding interfere
permits-interfere [] s = refl
permits-interfere (i ∷ is) s = permits-interfere is (give_up i s) ∙ permits-give_up i s

serve-Closed :
    (rounds : List (List ℕ)) (queue : List ℕ) (s : Semaphore)
    → s.permits ≡ 0
    → Closed (serve rounds queue s)
unfolding serve settle
serve-Closed rounds [] s h = inl refl
serve-Closed rounds (i ∷ rest) s h =
    let after = interfere (next_round rounds) s in
    let h' = permits-interfere (next_round rounds) s ∙ h in
    elim (Bool-cases (is_giveup (deref s.futures i).status)) [
      | inl e ↦ rw (e, serve) (serve-Closed rounds rest s h)
      | inr e ↦ elim (Bool-cases (ltb s.spare (deref s.futures i).permits)) [
        | inl f ↦ rw (e, f) (inr h)
        | inr f ↦ elim (Bool-cases (is_waiting (deref after.futures i).status)) [
          | inl g ↦
              rw (e, f, g)
                (serve-Closed (later_rounds rounds) rest (hand_out i after) (unfold hand_out in h'))
          | inr g ↦ rw (e, f, g) (inr h')
        ]
      ]
    ]

serve_queue-Closed :
    (rounds : List (List ℕ)) (queue : List ℕ) (s : Semaphore)
    → (queue ≡ []) ⊎ (s.permits ≡ 0)
    → Closed (serve rounds queue s)
serve_queue-Closed rounds [] s h = unfold serve settle in inl refl
serve_queue-Closed rounds (i ∷ rest) s (inr h) = serve-Closed rounds (i ∷ rest) s h
serve_queue-Closed rounds (i ∷ rest) s (inl h) = ground arith

-- `release` settles the queue, whatever state the caller found it in.
pub release-Sound :
    (rounds : List (List ℕ)) (n : ℕ) (s : Semaphore)
    → Waits s.futures s.queue
    → Closed s
    → Sound (release rounds n s)
unfolding release
release-Sound rounds n s w c =
    let s' : Semaphore = record s { spare = s.spare + n } in
    let l = serve-Live rounds s.queue s' w in
    record { waits = l.0; live = l.1; closed = serve_queue-Closed rounds s.queue s' c }

-- Every queued future keeps its waker.
abbrev pub SameWakers : List Future → List Future → Type 0
SameWakers fs gs = (j : ℕ) → Queued fs j → Queued gs j × (deref gs j ≡ deref fs j)

pub Blocked-same :
    (spare : ℕ) (fs gs : List Future) (queue : List ℕ)
    → All (Queued fs) queue
    → SameWakers fs gs
    → Blocked spare fs queue
    → Blocked spare gs queue
Blocked-same spare fs gs [] a h b = b
Blocked-same spare fs gs (i ∷ rest) a h b =
    subst (λ w. (spare < w.permits) × (is_waiting w.status ≡ true)) (sym (h i a.0).1) b

pub Waits-same :
    (fs gs : List Future) (queue : List ℕ) → SameWakers fs gs → Waits fs queue → Waits gs queue
Waits-same fs gs queue h w = (All-map queue (λ j q. (h j q).0) w.0, w.1)

pub Live-same :
    (s : Semaphore) (gs : List Future)
    → SameWakers s.futures gs
    → Waits s.futures s.queue
    → Live s
    → Live (record s { futures = gs })
Live-same s gs h w (inl o) = inl o
Live-same s gs h w (inr b) = inr (Blocked-same s.spare s.futures gs s.queue w.0 h b)

append-same : (fs gs : List Future) → SameWakers fs (fs ++ gs)
append-same [] gs j q = ground arith
append-same (f ∷ fs) gs zero q = (q, refl)
append-same (f ∷ fs) gs (suc j) q = append-same fs gs j q

pub set-same :
    (fs : List Future) (i : ℕ) (f g : Future)
    → get_elem? fs i ≡ some f
    → g.waker ≡ f.waker
    → SameWakers fs (set fs i g)
set-same [] i f g e h j q = (q, refl)
set-same (x ∷ fs) zero f g e h zero q = ground arith
set-same (x ∷ fs) zero f g e h (suc j) q = (q, refl)
set-same (x ∷ fs) (suc i) f g e h zero q = (q, refl)
set-same (x ∷ fs) (suc i) f g e h (suc j) q = set-same fs i f g e h j q

pub try_acquire-Sound : (n : ℕ) (s : Semaphore) → Sound s → Sound (or_same s (try_acquire n s))
unfolding try_acquire
try_acquire-Sound n s v = elim (Bool-cases (ltb s.permits n)) [
  | inl f ↦ rw f v
  | inr f ↦ rw f (record {
    waits = v.waits;
    live = v.live;
    closed = elim v.closed [ inl c ↦ inl c | inr c ↦ inr (omega arith) ];
  })
]

pub acquire-Sound : (n : ℕ) (s : Semaphore) → Sound s → Sound (acquire n s)
unfolding acquire
acquire-Sound n s v =
    let gs : List Future = s.futures ++ record { permits = n; waker = none } ∷ [] in
    let h = append-same s.futures (record { permits = n; waker = none } ∷ []) in
    record {
      waits = Waits-same s.futures gs s.queue h v.waits;
      live = Live-same s gs h v.waits v.live;
      closed = v.closed;
    }

pub take_grant-Sound : (i : ℕ) (s : Semaphore) → Sound s → Sound (take_grant i s)
unfolding take_grant
take_grant-Sound i s v = elim (Option-cases (get_elem? s.futures i)) [
  | inl e ↦ rw (e, take_grant) v
  | inr (f, e) ↦
      let g : Future = record f { permits = 0 } in
      let h = set-same s.futures i f g e refl in
      rw (e, take_grant)
        (record {
          waits = Waits-same s.futures (set s.futures i g) s.queue h v.waits;
          live = Live-same s (set s.futures i g) h v.waits v.live;
          closed = v.closed;
        })
]
