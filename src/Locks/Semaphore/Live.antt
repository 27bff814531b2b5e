-- ===== src/Locks/Semaphore/Live.antt =====
-- No wakeup of library/async_locks/src/semaphore.rs is lost: the queue waits only for permits.
use cos_rs.Base.{
  ℕ, zero, suc, ◌≤◌, ◌<◌, ◌≡◌, ◌≢◌, ◌⊎◌, refl, sym, ◌∙◌, ap, Bool, true, false, Option, none, some,
  List, [], ◌∷◌, ltb, get_elem?, set, All, inl, inr, Bool-cases, Option-cases, ltb→lt, arith,
  length,
}
use cos_rs.Locks.Semaphore.{
  acquired, giveup, Future, Semaphore, is_waiting, is_giveup, deref, with_status, owed_by,
  push_owed, store_status, give_up, interfere, hand_out, settle, next_round, later_rounds, serve,
}

-- The future has a waker, and it was not served.
abbrev pub queued : Option Future → Bool
queued none = false
queued (some f) = elim f.waker [
  | none ↦ false
  | some w ↦ elim w.status [ acquired ↦ false | _ ↦ true ]
]

abbrev pub Queued : List Future → ℕ → Type 0
Queued fs i = queued (get_elem? fs i) ≡ true

abbrev pub Distinct : List ℕ → Type 0
Distinct [] = Unit
Distinct (x ∷ xs) = All (λ y. x ≢ y) xs × Distinct xs

abbrev pub Waits : List Future → List ℕ → Type 0
Waits fs queue = All (Queued fs) queue × Distinct queue

-- Nothing set aside and nobody queued, or a head that waits for more than is set aside.
abbrev pub Blocked : ℕ → List Future → List ℕ → Type 0
Blocked spare fs [] = spare ≡ 0
Blocked spare fs (i ∷ rest) =
    (spare < (deref fs i).permits) × (is_waiting (deref fs i).status ≡ true)

-- Nobody owes a `release`: then the queue is blocked.
abbrev pub Live : Semaphore → Type 0
Live s = (0 < length s.owed) ⊎ Blocked s.spare s.futures s.queue

pub All-map {κ μ} :
    {P : ℕ → Type κ} {Q : ℕ → Type μ} (xs : List ℕ) → ((x : ℕ) → P x → Q x) → All P xs → All Q xs
All-map [] f h = tt
All-map (x ∷ xs) f h = (f x h.0, All-map xs f h.1)

pub All-both {κ μ ν} :
    {P : ℕ → Type κ} {Q : ℕ → Type μ} {R : ℕ → Type ν} (xs : List ℕ)
    → ((x : ℕ) → P x → Q x → R x)
    → All P xs
    → All Q xs
    → All R xs
All-both [] f h k = tt
All-both (x ∷ xs) f h k = (f x h.0 k.0, All-both xs f h.1 k.1)

set-Queued :
    (fs : List Future) (i j : ℕ) (f : Future)
    → get_elem? fs i ≡ some f
    → Queued fs j
    → Queued (set fs i (with_status giveup f)) j
set-Queued [] i j f e h = h
set-Queued (x ∷ fs) zero zero f e h = ground arith
set-Queued (x ∷ fs) zero (suc j) f e h = h
set-Queued (x ∷ fs) (suc i) zero f e h = h
set-Queued (x ∷ fs) (suc i) (suc j) f e h = set-Queued fs i j f e h

pub give_up-Queued : (i j : ℕ) (s : Semaphore) → Queued s.futures j → Queued (give_up i s).futures j
unfolding give_up
give_up-Queued i j s h = elim (Option-cases (get_elem? s.futures i)) [
  | inl e ↦ rw (e, give_up) h
  | inr (f, e) ↦ rw (e, give_up) (set-Queued s.futures i j f e h)
]

interfere-Queued :
    (is : List ℕ) (j : ℕ) (s : Semaphore) → Queued s.futures j → Queued (interfere is s).futures j
unfolding interfere
interfere-Queued [] j s h = h
interfere-Queued (i ∷ is) j s h = interfere-Queued is j (give_up i s) (give_up-Queued i j s h)

store-Queued :
    (fs : List Future) (i j : ℕ) → i ≢ j → Queued fs j → Queued (store_status fs i acquired) j
store-Queued [] i j n h = h
store-Queued (x ∷ fs) zero zero n h = absurd (n refl)
store-Queued (x ∷ fs) zero (suc j) n h = h
store-Queued (x ∷ fs) (suc i) zero n h = ground arith
store-Queued (x ∷ fs) (suc i) (suc j) n h =
    ground (arith, store-Queued fs i j (λ e. n (ap suc e)) h)

set-waiting :
    (fs : List Future) (i j : ℕ) (f : Future)
    → get_elem? fs i ≡ some f
    → f.waker ≡ none
    → is_waiting (deref (set fs i (with_status giveup f)) j).status ≡ is_waiting (deref fs j).status
set-waiting [] i j f e h = refl
set-waiting (x ∷ fs) zero zero f e h = ground arith
set-waiting (x ∷ fs) zero (suc j) f e h = refl
set-waiting (x ∷ fs) (suc i) zero f e h = refl
set-waiting (x ∷ fs) (suc i) (suc j) f e h = set-waiting fs i j f e h

pub push_owed-pos :
    (f : Future) (xs : List ℕ) → (0 < length (push_owed (owed_by f) xs)) ⊎ (f.waker ≡ none)
push_owed-pos f xs = ground arith

-- A drop either leaves every status, or leaves a `release` owed.
pub give_up-owed :
    (i j : ℕ) (s : Semaphore)
    → (0 < length (give_up i s).owed)
      ⊎ (is_waiting (deref (give_up i s).futures j).status ≡ is_waiting (deref s.futures j).status)
unfolding give_up
give_up-owed i j s = elim (Option-cases (get_elem? s.futures i)) [
  | inl e ↦ rw (e, give_up) (inr refl)
  | inr (f, e) ↦
      rw (e, give_up)
        (elim (push_owed-pos f s.owed) [
          | inl h ↦ inl h
          | inr h ↦ inr (set-waiting s.futures i j f e h)
        ])
]

length-give_up : (i : ℕ) (s : Semaphore) → length s.owed ≤ length (give_up i s).owed
unfolding give_up
length-give_up i s = ground arith

length-interfere : (is : List ℕ) (s : Semaphore) → length s.owed ≤ length (interfere is s).owed
unfolding interfere
length-interfere [] s = omega arith
length-interfere (i ∷ is) s = omega (arith, length-give_up i s, length-interfere is (give_up i s))

interfere-owed :
    (is : List ℕ) (j : ℕ) (s : Semaphore)
    → (0 < length (interfere is s).owed)
      ⊎ (is_waiting (deref (interfere is s).futures j).status
          ≡ is_waiting (deref s.futures j).status)
unfolding interfere
interfere-owed [] j s = inr refl
interfere-owed (i ∷ is) j s = elim (give_up-owed i j s) [
  | inl h ↦ inl (omega (arith, length-interfere is (give_up i s)))
  | inr h ↦ elim (interfere-owed is j (give_up i s)) [ inl k ↦ inl k | inr k ↦ inr (k ∙ h) ]
]

waiting_of_Queued :
    (fs : List Future) (i : ℕ)
    → Queued fs i
    → is_giveup (deref fs i).status ≡ false
    → is_waiting (deref fs i).status ≡ true
waiting_of_Queued fs i q h = ground arith

interfere-Waits :
    (is : List ℕ) (s : Semaphore) (queue : List ℕ)
    → Waits s.futures queue
    → Waits (interfere is s).futures queue
interfere-Waits is s queue w = (All-map queue (λ j. interfere-Queued is j s) w.0, w.1)

hand_out-Waits :
    (i : ℕ) (s : Semaphore) (rest : List ℕ)
    → Waits s.futures (i ∷ rest)
    → Waits (hand_out i s).futures rest
unfolding hand_out
hand_out-Waits i s rest w = (All-both rest (λ j. store-Queued s.futures i j) w.1.0 w.0.1, w.1.1)

not_waiting : true ≡ false → ⊥
not_waiting e = cc

-- After the loop of `release` the queue still waits, and only for permits.
pub serve-Live :
    (rounds : List (List ℕ)) (queue : List ℕ) (s : Semaphore)
    → Waits s.futures queue
    → Waits (serve rounds queue s).futures (serve rounds queue s).queue
      × Live (serve rounds queue s)
unfolding serve settle
serve-Live rounds [] s w = (w, inr refl)
serve-Live rounds (i ∷ rest) s w =
    let after = interfere (next_round rounds) s in
    let w' = interfere-Waits (next_round rounds) s (i ∷ rest) w in
    elim (Bool-cases (is_giveup (deref s.futures i).status)) [
      | inl e ↦ rw (e, serve) (serve-Live rounds rest s (w.0.1, w.1.1))
      | inr e ↦
          let was = waiting_of_Queued s.futures i w.0.0 e in
          elim (Bool-cases (ltb s.spare (deref s.futures i).permits)) [
            | inl f ↦ rw (e, f) (w, inr (ltb→lt _ _ f, was))
            | inr f ↦ elim (Bool-cases (is_waiting (deref after.futures i).status)) [
              | inl g ↦
                  rw (e, f, g)
                    (serve-Live (later_rounds rounds) rest (hand_out i after)
                      (hand_out-Waits i after rest w'))
              | inr g ↦
                  rw (e, f, g)
                    (
                      w',
                      elim (interfere-owed (next_round rounds) i s) [
                        | inl o ↦ inl o
                        | inr o ↦ absurd (not_waiting (sym was ∙ sym o ∙ g))
                      ],
                    )
            ]
          ]
    ]
