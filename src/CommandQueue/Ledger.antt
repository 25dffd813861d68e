-- ===== src/CommandQueue/Ledger.antt =====
-- Who holds a pointer to a command of http_server.cpp: a balance that every step keeps.
use windbg_agent.Base.{
  ℕ, ◌+◌, ◌≤◌, ◌<◌, ◌≡◌, ◌≢◌, refl, List, [], ◌∷◌, ◌++◌, true, Bytes, arith, ◌==◌, ◌⊎◌, inl, inr,
  if◌then◌else◌,
}
use windbg_agent.CommandQueue.{
  notifying, notifies, signalled, closes, sweeps, Caller, waiting, Worker, holding, Callback, Texts,
  State, Outcome, done, blocked, dangling, terminated, ◌>>=◌, without, holds, Event, enters, pushes,
  wakes, tops, polls, finishes, halts, swaps, drains, restarts, step,
}

-- What a run came to, from what its first step came to.
pub >>=-eq-done :
    (m : Outcome) (f : State → Outcome) {t : State}
    → (m >>= f) ≡ done t
    → (s : State) × (m ≡ done s) × (f s ≡ done t)
>>=-eq-done (done s) f h = (s, refl, h)
>>=-eq-done blocked f h = cc
>>=-eq-done dangling f h = cc
>>=-eq-done terminated f h = cc

pub >>=-eq-dangling :
    (m : Outcome) (f : State → Outcome)
    → (m >>= f) ≡ dangling
    → (m ≡ dangling) ⊎ ((s : State) × (m ≡ done s) × (f s ≡ dangling))
>>=-eq-dangling (done s) f h = inr (s, refl, h)
>>=-eq-dangling blocked f h = cc
>>=-eq-dangling dangling f h = inl refl
>>=-eq-dangling terminated f h = cc

-- How often a pointer occurs.
abbrev pub count : ℕ → List ℕ → ℕ
count k [] = 0
count k (x ∷ xs) = (if x == k then 1 else 0) + count k xs

pub count-append : (k : ℕ) (xs ys : List ℕ) → count k (xs ++ ys) ≡ count k xs + count k ys
count-append k [] ys = omega arith
count-append k (x ∷ xs) ys = ground (arith, count-append k xs ys)

count-without :
    (j k : ℕ) (xs : List ℕ)
    → holds k xs ≡ true
    → count j (without k xs) + (if k == j then 1 else 0) ≡ count j xs
unfolding holds without
count-without j k [] h = cc
count-without j k (x ∷ xs) h = ground (arith, count-without j k xs)

count-holds : (k : ℕ) (xs : List ℕ) → holds k xs ≡ true → 0 < count k xs
unfolding holds
count-holds k [] h = cc
count-holds k (x ∷ xs) h = ground (arith, count-holds k xs)

abbrev pub in_hand : ℕ → Worker → ℕ
in_hand k (holding j) = if j == k then 1 else 0
in_hand k _ = 0

-- How many parts of the server hold a pointer to the command of call `k`.
abbrev pub held : ℕ → State → ℕ
held k s = in_hand k s.worker + count k s.pending + count k s.draining

-- Whether a call still waits for its command to be completed.
abbrev pub owed : Caller → ℕ
owed (waiting c) = if c.completed then 0 else 1
owed _ = 0

abbrev pub IsWaitable : Caller → Type 0
IsWaitable (waiting c) = c.waitable ≡ true
IsWaitable _ = Unit

abbrev pub Waitable : State → Type 0
Waitable s = (k : ℕ) → IsWaitable (s.callers k)

-- Every uncompleted command is in exactly one hand, and no other pointer is kept.
abbrev pub Ledger : State → Type 0
Ledger s = (k : ℕ) → held k s ≡ owed (s.callers k)

-- Every uncompleted command is in some hand.
abbrev pub Tracked : State → Type 0
Tracked s = (k : ℕ) → owed (s.callers k) ≤ held k s

-- No waiter gives up on a command that is not completed.
abbrev pub IsPatient : Event → State → Type 0
IsPatient (wakes k) s = owed (s.callers k) ≡ 0
IsPatient _ s = Unit

-- How many notifications of the call `k` are outstanding.
abbrev pub in_notify : ℕ → Worker → ℕ
in_notify k (notifying j) = if j == k then 1 else 0
in_notify k _ = 0

abbrev pub unnotified : ℕ → State → ℕ
unnotified k s = in_notify k s.worker + count k s.signals

abbrev alive : Caller → ℕ
alive (waiting c) = 1
alive _ = 0

-- A call that is still to be notified has not returned.
abbrev pub Signals : State → Type 0
Signals s = (k : ℕ) → 0 < unnotified k s → 0 < alive (s.callers k)

-- A `notify_one` for a command, by the command thread or by `complete_pending_commands`.
abbrev pub IsNotify : Event → Type 0
IsNotify notifies = Unit
IsNotify (signalled k) = Unit
IsNotify _ = ⊥

-- No waiter returns while its notification is outstanding.
abbrev pub Awaits : Event → State → Type 0
Awaits (wakes k) s = unnotified k s ≡ 0
Awaits _ s = Unit

module _ (texts : Texts) (exec : List Bytes → Bytes → Callback) where
  pub step-Waitable :
      (e : Event) (s : State) {s' : State}
      → step texts exec e s ≡ done s'
      → Waitable s
      → Waitable s'
  unfolding step
  step-Waitable (enters k input) s h w j = ground (arith, w j)
  step-Waitable (pushes k) s h w j = ground (arith, w j)
  step-Waitable (wakes k) s h w j = ground (arith, w j)
  step-Waitable (tops i) s h w j = ground (arith, w j)
  step-Waitable polls s h w j = ground (arith, w j)
  step-Waitable finishes s h w j = ground (arith, w j)
  step-Waitable notifies s h w j = ground (arith, w j)
  step-Waitable halts s h w j = ground (arith, w j)
  step-Waitable swaps s h w j = ground (arith, w j)
  step-Waitable (drains k) s h w j = ground (arith, w j, w k)
  step-Waitable (signalled k) s h w j = ground (arith, w j)
  step-Waitable closes s h w j = ground (arith, w j)
  step-Waitable sweeps s h w j = ground (arith, w j)
  step-Waitable restarts s h w j = ground (arith, w j)

  pub step-Ledger :
      (e : Event) (s : State) {s' : State}
      → step texts exec e s ≡ done s'
      → Waitable s
      → IsPatient e s
      → Ledger s
      → Ledger s'
  unfolding step
  step-Ledger (enters k input) s h w p l j = ground (arith, w j, l j)
  step-Ledger (pushes k) s h w p l j = ground (arith, w j, l j, count-append j s.pending (k ∷ []))
  step-Ledger (wakes k) s h w p l j = ground (arith, w j, l j)
  step-Ledger (tops i) s h w p l j = ground (arith, w j, l j)
  step-Ledger polls s h w p l j = ground (arith, w j, l j)
  step-Ledger finishes s h w p l j = ground (arith, w j, l j)
  step-Ledger notifies s h w p l j = ground (arith, w j, l j)
  step-Ledger halts s h w p l j = ground (arith, w j, l j)
  step-Ledger swaps s h w p l j = ground (arith, w j, l j, count-append j s.draining s.pending)
  step-Ledger (drains k) s h w p l j =
      ground (arith, w j, l j, l k, count-without j k s.draining, count-holds k s.draining)
  step-Ledger (signalled k) s h w p l j = ground (arith, w j, l j)
  step-Ledger closes s h w p l j = ground (arith, w j, l j)
  step-Ledger sweeps s h w p l j = ground (arith, w j, l j, count-append j s.draining s.pending)
  step-Ledger restarts s h w p l j = ground (arith, w j, l j)

  pub step-Tracked :
      (e : Event) (s : State) {s' : State}
      → step texts exec e s ≡ done s'
      → Waitable s
      → Tracked s
      → Tracked s'
  unfolding step
  step-Tracked (enters k input) s h w l j = ground (arith, w j, l j)
  step-Tracked (pushes k) s h w l j = ground (arith, w j, l j, count-append j s.pending (k ∷ []))
  step-Tracked (wakes k) s h w l j = ground (arith, w j, l j)
  step-Tracked (tops i) s h w l j = ground (arith, w j, l j)
  step-Tracked polls s h w l j = ground (arith, w j, l j)
  step-Tracked finishes s h w l j = ground (arith, w j, l j)
  step-Tracked notifies s h w l j = ground (arith, w j, l j)
  step-Tracked halts s h w l j = ground (arith, w j, l j)
  step-Tracked swaps s h w l j = ground (arith, w j, l j, count-append j s.draining s.pending)
  step-Tracked (drains k) s h w l j =
      ground (arith, w j, l j, count-without j k s.draining, count-holds k s.draining)
  step-Tracked (signalled k) s h w l j = ground (arith, w j, l j)
  step-Tracked closes s h w l j = ground (arith, w j, l j)
  step-Tracked sweeps s h w l j = ground (arith, w j, l j, count-append j s.draining s.pending)
  step-Tracked restarts s h w l j = ground (arith, w j, l j)

  pub step-Signals :
      (e : Event) (s : State) {s' : State}
      → step texts exec e s ≡ done s'
      → Awaits e s
      → Signals s
      → Signals s'
  unfolding step
  step-Signals (enters k input) s h p v j = ground (arith, v j)
  step-Signals (pushes k) s h p v j = ground (arith, v j)
  step-Signals (wakes k) s h p v j = ground (arith, v j)
  step-Signals (tops i) s h p v j = ground (arith, v j)
  step-Signals polls s h p v j = ground (arith, v j)
  step-Signals finishes s h p v j = ground (arith, v j)
  step-Signals notifies s h p v j = ground (arith, v j)
  step-Signals halts s h p v j = ground (arith, v j)
  step-Signals swaps s h p v j = ground (arith, v j)
  step-Signals (drains k) s h p v j = ground (arith, v j)
  step-Signals (signalled k) s h p v j =
      ground (arith, v j, count-without j k s.signals, count-holds k s.signals)
  step-Signals closes s h p v j = ground (arith, v j)
  step-Signals sweeps s h p v j = ground (arith, v j)
  step-Signals restarts s h p v j = ground (arith, v j)

  -- With the ledger balanced, and the completed commands alive until their waiters are notified, no
  -- step follows a dead pointer.
  pub step-ne-dangling :
      (e : Event) (s : State) → Ledger s → Signals s → step texts exec e s ≢ dangling
  unfolding step
  step-ne-dangling (drains k) s l v h = ground (arith, l k, count-holds k s.draining)
  step-ne-dangling (signalled k) s l v h = ground (arith, v k, count-holds k s.signals)
  step-ne-dangling finishes s l v h = grind (arith, l)
  step-ne-dangling notifies s l v h = grind (arith, v)
  step-ne-dangling _ s l v h = ground arith

  -- With the ledger balanced alone, the only steps that can follow a dead pointer are those.
  pub step-IsNotify :
      (e : Event) (s : State) → Ledger s → step texts exec e s ≡ dangling → IsNotify e
  unfolding step
  step-IsNotify (signalled k) s l h = tt
  step-IsNotify notifies s l h = tt
  step-IsNotify (drains k) s l h = ground (arith, l k, count-holds k s.draining)
  step-IsNotify finishes s l h = grind (arith, l)
  step-IsNotify _ s l h = ground arith
