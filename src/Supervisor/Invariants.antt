-- ===== src/Supervisor/Invariants.antt =====
-- What holds of the supervisor in every state that its loop reaches.
use endorium_nexus.Maps.{
  lookup, lookup-assign, lookup-assign-other, lookup-erase, lookup-erase-other,
}
use endorium_nexus.Supervisor.Services.{
  ServiceSpec, Config, System, Supervisor, desired_enabled, was_blocked, block, unblock, spawned,
  stopped, reconcile_one, reconcile,
}
use endorium_nexus.Supervisor.Changes.{
  Change, runs_on, stays_off, blocks, fails, starts, stops, reconcile_one-Change,
}
use endorium_nexus.Prelude.{
  Bool-cases, any, Text, text_eq, text_eq→eq, ℕ, ◌≡◌, refl, sym, ap, ◌∙◌, ◌⊎◌, inl, inr, true,
  false, none, some, List, [], ◌∷◌, arith,
}

-- No disabled service runs.
abbrev pub IsWanted : Config → Supervisor → Type 0
IsWanted config s = (id : Text) → desired_enabled config id ≡ false → lookup id s.running ≡ none

-- No blocked service runs.
abbrev pub IsExclusive : Supervisor → Type 0
IsExclusive s = (id : Text) → was_blocked s id ≡ true → lookup id s.running ≡ none

pub running-block : (id : Text) (s : Supervisor) → (block id s).running ≡ s.running
unfolding block
running-block id s = ground arith

pub running-unblock : (id : Text) (s : Supervisor) → (unblock id s).running ≡ s.running
unfolding unblock
running-unblock id s = ground arith

others :
    (config : Config) (spec : ServiceSpec) (id : Text)
    → desired_enabled config spec.id ≡ true
    → desired_enabled config id ≡ false
    → text_eq id spec.id ≡ false
others config spec id e h = elim (Bool-cases (text_eq id spec.id)) [
  | inl same ↦ let equal = ap (desired_enabled config) (text_eq→eq id spec.id same) in cc
  | inr other ↦ other
]

module _ (config : Config) (spec : ServiceSpec) (s : Supervisor) where
  pub running-spawned :
      (id : Text) (pid : ℕ)
      → text_eq id spec.id ≡ false
      → lookup id (spawned spec (unblock spec.id s) (some pid)).running ≡ lookup id s.running
  unfolding spawned
  running-spawned id pid h =
      lookup-assign-other spec.id id _ _ h ∙ ap (lookup id) (running-unblock spec.id s)

  running-stopped :
      (id : Text)
      → (lookup id (stopped spec s).running ≡ none)
        ⊎ (lookup id (stopped spec s).running ≡ lookup id s.running)
  unfolding stopped
  running-stopped id = elim (Bool-cases (text_eq id spec.id)) [
    | inl same ↦ inl (rw (text_eq→eq id spec.id same) (lookup-erase spec.id s.running))
    | inr other ↦ inr (lookup-erase-other spec.id id s.running other)
  ]

  Change-stays_none :
      (t : Supervisor) (id : Text)
      → Change config spec s t
      → desired_enabled config id ≡ false
      → lookup id s.running ≡ none
      → lookup id t.running ≡ none
  Change-stays_none t id (runs_on e f) h k = k
  Change-stays_none t id (stays_off e f) h k = k
  Change-stays_none t id (blocks e f) h k = ap (lookup id) (running-block spec.id s) ∙ k
  Change-stays_none t id (fails e f) h k = ap (lookup id) (running-unblock spec.id s) ∙ k
  Change-stays_none t id (starts e f pid) h k =
      running-spawned id pid (others config spec id e h) ∙ k
  Change-stays_none t id (stops e) h k = elim (running-stopped id) [
    | inl n ↦ n
    | inr same ↦ same ∙ k
  ]

  Change-turns_off :
      (t : Supervisor)
      → Change config spec s t
      → desired_enabled config spec.id ≡ false
      → lookup spec.id t.running ≡ none
  unfolding stopped
  Change-turns_off t (runs_on e f) h = cc
  Change-turns_off t (stays_off e f) h = f
  Change-turns_off t (blocks e f) h = cc
  Change-turns_off t (fails e f) h = cc
  Change-turns_off t (starts e f pid) h = cc
  Change-turns_off t (stops e) h = lookup-erase spec.id s.running

blocked-cong :
    (s t : Supervisor) (id : Text)
    → lookup id s.blocked_services ≡ lookup id t.blocked_services
    → was_blocked s id ≡ was_blocked t id
unfolding was_blocked
blocked-cong s t id h = ground (arith, h)

blocked-spawned :
    (spec : ServiceSpec) (s : Supervisor) (id : Text) (pid : ℕ)
    → was_blocked (spawned spec s (some pid)) id ≡ was_blocked s id
unfolding spawned
blocked-spawned spec s id pid = blocked-cong _ s id refl

module _ (k id : Text) (s : Supervisor) (other : text_eq id k ≡ false) where
  blocked-block : was_blocked (block k s) id ≡ was_blocked s id
  unfolding block
  blocked-block = elim (Bool-cases (was_blocked s k)) [
    | inl e ↦ rw e
    | inr e ↦ rw e (blocked-cong _ s id (lookup-assign-other k id true s.blocked_services other))
  ]

  blocked-unblock : was_blocked (unblock k s) id ≡ was_blocked s id
  unfolding unblock
  blocked-unblock = elim (Bool-cases (was_blocked s k)) [
    | inl e ↦ rw e (blocked-cong _ s id (lookup-assign-other k id false s.blocked_services other))
    | inr e ↦ rw e
  ]

blocked-stopped :
    (spec : ServiceSpec) (id : Text) (s : Supervisor)
    → text_eq id spec.id ≡ false
    → was_blocked (stopped spec s) id ≡ was_blocked s id
unfolding stopped
blocked-stopped spec id s other = elim (Bool-cases (was_blocked s spec.id)) [
  | inl e ↦ rw e (blocked-cong _ s id (lookup-erase-other spec.id id s.blocked_services other))
  | inr e ↦ rw e (blocked-cong _ s id refl)
]

unset :
    (k : Text) (t : Supervisor) → lookup k t.blocked_services ≡ some false → was_blocked t k ≡ false
unfolding was_blocked
unset k t h = ground (arith, h)

unblocks : (k : Text) (s : Supervisor) → was_blocked (unblock k s) k ≡ false
unfolding unblock
unblocks k s = elim (Bool-cases (was_blocked s k)) [
  | inl e ↦ rw e (unset k _ (lookup-assign k false s.blocked_services))
  | inr e ↦ rw e e
]

module _ (config : Config) (spec : ServiceSpec) (s : Supervisor) (before : IsExclusive s) where
  -- The service whose turn it is.
  exclusive_same :
      (t : Supervisor)
      → Change config spec s t
      → was_blocked t spec.id ≡ true
      → lookup spec.id t.running ≡ none
  unfolding stopped
  exclusive_same t (runs_on e f) h = before spec.id h
  exclusive_same t (stays_off e f) h = f
  exclusive_same t (blocks e f) h = ap (lookup spec.id) (running-block spec.id s) ∙ f
  exclusive_same t (fails e f) h = ap (lookup spec.id) (running-unblock spec.id s) ∙ f
  exclusive_same t (starts e f pid) h = impossible (sym h ∙ spawned_unblocked pid)
    where
      impossible :
          true ≡ false → lookup spec.id (spawned spec (unblock spec.id s) (some pid)).running ≡ none
      impossible h = cc

      spawned_unblocked :
          (pid : ℕ) → was_blocked (spawned spec (unblock spec.id s) (some pid)) spec.id ≡ false
      spawned_unblocked pid =
          blocked-spawned spec (unblock spec.id s) spec.id pid ∙ unblocks spec.id s
  exclusive_same t (stops e) h = lookup-erase spec.id s.running

  exclusive_other :
      (t : Supervisor) (id : Text)
      → text_eq id spec.id ≡ false
      → Change config spec s t
      → was_blocked t id ≡ true
      → lookup id t.running ≡ none
  exclusive_other t id o (runs_on e f) h = before id h
  exclusive_other t id o (stays_off e f) h = before id h
  exclusive_other t id o (blocks e f) h =
      ap (lookup id) (running-block spec.id s) ∙ before id (sym (blocked-block spec.id id s o) ∙ h)
  exclusive_other t id o (fails e f) h =
      ap (lookup id) (running-unblock spec.id s)
      ∙ before id (sym (blocked-unblock spec.id id s o) ∙ h)
  exclusive_other t id o (starts e f pid) h =
      running-spawned config spec s id pid o
      ∙ before id (
          sym (blocked-spawned spec (unblock spec.id s) id pid ∙ blocked-unblock spec.id id s o)
          ∙ h)
  exclusive_other t id o (stops e) h = elim (running-stopped config spec s id) [
    | inl n ↦ n
    | inr same ↦ same ∙ before id (sym (blocked-stopped spec id s o) ∙ h)
  ]

  Change-IsExclusive : (t : Supervisor) → Change config spec s t → IsExclusive t
  Change-IsExclusive t c id h = elim (Bool-cases (text_eq id spec.id)) [
    | inl same ↦
        let e = text_eq→eq id spec.id same in
        ap (λ i. lookup i t.running) e ∙ exclusive_same t c (ap (was_blocked t) (sym e) ∙ h)
    | inr other ↦ exclusive_other t id other c h
  ]

module _ {S : Type 0} (system : System S) where
  -- What the configuration wants off is off behind a reconcile, if it was off or had its turn.
  pub reconcile_off :
      (config : Config) (specs : List ServiceSpec) (s : Supervisor) (state : S) (id : Text)
      → desired_enabled config id ≡ false
      → (lookup id s.running ≡ none) ⊎ (any (λ spec. text_eq id spec.id) specs ≡ true)
      → lookup id (reconcile system config specs s state).0.running ≡ none
  unfolding reconcile any
  reconcile_off config [] s state id h (inl n) = n
  reconcile_off config [] s state id h (inr listed) = cc
  reconcile_off config (spec ∷ specs) s state id h p =
      let (next, after) = reconcile_one system config spec s state in
      let c = reconcile_one-Change system config spec s state in
      reconcile_off config specs next after id h (turn next c p)
    where
      turn :
          (t : Supervisor)
          → Change config spec s t
          → (lookup id s.running ≡ none) ⊎ (any (λ spec. text_eq id spec.id) (spec ∷ specs) ≡ true)
          → (lookup id t.running ≡ none) ⊎ (any (λ spec. text_eq id spec.id) specs ≡ true)
      turn t c (inl n) = inl (Change-stays_none config spec s t id c h n)
      turn t c (inr listed) = elim (Bool-cases (text_eq id spec.id)) [
        | inl same ↦
            let e = text_eq→eq id spec.id same in
            inl (
              ap (λ i. lookup i t.running) e
              ∙ Change-turns_off config spec s t c (ap (desired_enabled config) (sym e) ∙ h))
        | inr other ↦ inr (ground (arith, listed, other))
      ]

  pub reconcile-IsExclusive :
      (config : Config) (specs : List ServiceSpec) (s : Supervisor) (state : S)
      → IsExclusive s
      → IsExclusive (reconcile system config specs s state).0
  unfolding reconcile
  reconcile-IsExclusive config [] s state h = h
  reconcile-IsExclusive config (spec ∷ specs) s state h =
      let (next, after) = reconcile_one system config spec s state in
      reconcile-IsExclusive config specs next after
        (Change-IsExclusive config spec s h next (reconcile_one-Change system config spec s state))
