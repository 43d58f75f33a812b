-- ===== src/Supervisor/Endings.antt =====
-- Services that end: the loop that drops them, and the stop of all of them.
use endorium_nexus.Maps.{lookup, lookup_same, lookup_other}
use endorium_nexus.Supervisor.Services.{RunningService, System, stop_all, has_ended, drop_ended}
use endorium_nexus.Supervisor.Children.{
  Children, NoneNew, stop_service-gone, stop_all-NoneNew, has_ended-NoneNew, has_ended-gone,
}
use endorium_nexus.Supervisor.Tracking.{Entry, Entry-cong, Entry-pid}
use endorium_nexus.Prelude.{
  Bool-cases, Text, text_eq, ℕ, ◌≡◌, sym, ap, ◌∙◌, inl, inr, true, false, none, List, [], ◌∷◌,
  arith,
}

module _ {S : Type 0} (system : System S) where
  module _ (id : Text) (service : RunningService) (rest : List (Text × RunningService))
      (state : S) where
    drop_step :
        (has_ended system service state).1 ≡ true
        → (drop_ended system ((id, service) ∷ rest) state).0
          ≡ (drop_ended system rest (has_ended system service state).0).0
    unfolding drop_ended
    drop_step e = rw e

    keep_step :
        (has_ended system service state).1 ≡ false
        → (drop_ended system ((id, service) ∷ rest) state).0
          ≡ (id, service) ∷ (drop_ended system rest (has_ended system service state).0).0
    unfolding drop_ended
    keep_step e = rw e

    state_step :
        (drop_ended system ((id, service) ∷ rest) state).1
        ≡ (drop_ended system rest (has_ended system service state).0).1
    unfolding drop_ended
    state_step = elim (Bool-cases (has_ended system service state).1) [
      | inl e ↦ rw e
      | inr e ↦ rw e
    ]

  first_differs :
      (id key : Text) (service : RunningService) (rest : List (Text × RunningService))
      → lookup id ((key, service) ∷ rest) ≡ none
      → text_eq id key ≡ false
  unfolding lookup
  first_differs id key service rest h = ground (arith, h)

  pub drop_ended-none :
      (id : Text) (m : List (Text × RunningService)) (state : S)
      → lookup id m ≡ none
      → lookup id (drop_ended system m state).0 ≡ none
  unfolding drop_ended
  drop_ended-none id [] state h = h
  drop_ended-none id ((key, service) ∷ rest) state h =
      let other = first_differs id key service rest h in
      let later =
        drop_ended-none id rest (has_ended system service state).0
          (sym (lookup_other id key service rest other) ∙ h) in
      elim (Bool-cases (has_ended system service state).1) [
        | inl e ↦ ap (lookup id) (drop_step key service rest state e) ∙ later
        | inr e ↦
            ap (lookup id) (keep_step key service rest state e)
            ∙ lookup_other id key service _ other
            ∙ later
      ]

  module _ (children : Children system) where
    pub drop_ended-NoneNew :
        (m : List (Text × RunningService)) (state : S)
        → NoneNew system children state (drop_ended system m state).1
    unfolding drop_ended
    drop_ended-NoneNew [] state pid id h = h
    drop_ended-NoneNew ((key, service) ∷ rest) state pid id h =
        let after = (has_ended system service state).0 in
        let later = ap (λ st. children.is_child st pid id) (state_step key service rest state) in
        has_ended-NoneNew system children service state pid id
          (drop_ended-NoneNew rest after pid id (sym later ∙ h))

    -- A child that is left behind the loop over the services has kept its entry.
    pub drop_ended-Entry :
        (pid : ℕ) (id : Text) (m : List (Text × RunningService)) (state : S)
        → children.is_child (drop_ended system m state).1 pid id ≡ true
        → Entry m id pid
        → Entry (drop_ended system m state).0 id pid
    unfolding drop_ended
    drop_ended-Entry pid id [] state h entry = entry
    drop_ended-Entry pid id ((key, service) ∷ rest) state h entry =
        let (after, ended) = has_ended system service state in
        let step = ap (λ st. children.is_child st pid id) (state_step key service rest state) in
        let later : children.is_child (drop_ended system rest after).1 pid id ≡ true =
          sym step ∙ h in
        elim (Bool-cases (text_eq id key)) [
          | inl same ↦
              let here = lookup_same id key service rest same in
              let its_pid = Entry-pid ((key, service) ∷ rest) id pid service here entry in
              elim (Bool-cases ended) [
                | inl e ↦
                    let gone = has_ended-gone system children service state pid id its_pid e in
                    let left = drop_ended-NoneNew rest after pid id later in cc
                | inr e ↦
                    Entry-cong _ _ id pid (ap (lookup id) (keep_step key service rest state e))
                      (service, lookup_same id key service _ same, its_pid)
              ]
          | inr other ↦
              let behind = lookup_other id key service rest other in
              let kept =
                drop_ended-Entry pid id rest after later
                  (Entry-cong rest ((key, service) ∷ rest) id pid (sym behind) entry) in
              elim (Bool-cases ended) [
                | inl e ↦
                    Entry-cong _ _ id pid (ap (lookup id) (drop_step key service rest state e)) kept
                | inr e ↦
                    Entry-cong _ _ id pid
                      (ap (lookup id) (keep_step key service rest state e)
                        ∙ lookup_other id key service _ other)
                      kept
              ]
        ]

    -- Stopping all services leaves none of their children.
    pub stop_all-gone :
        (pid : ℕ) (id : Text) (m : List (Text × RunningService)) (state : S)
        → children.is_child (stop_all system m state) pid id ≡ true
        → Entry m id pid
        → true ≡ false
    unfolding stop_all lookup
    stop_all-gone pid id [] state h (service, e, f) = cc
    stop_all-gone pid id ((key, service) ∷ rest) state h entry =
        elim (Bool-cases (text_eq id key)) [
          | inl same ↦
              let here = lookup_same id key service rest same in
              let its_pid = Entry-pid ((key, service) ∷ rest) id pid service here entry in
              let gone = stop_service-gone system children service state pid id its_pid in
              let left = stop_all-NoneNew system children rest _ pid id h in cc
          | inr other ↦ stop_all-gone pid id rest _ h (
              Entry-cong rest ((key, service) ∷ rest) id pid
                (sym (lookup_other id key service rest other)) entry)
        ]
