-- ===== src/Remote/Current.antt =====
-- sdk/remote/configurator.go: which configuration each registered function has been given last.
use go_opentelemetry.Prelude.{
  ℕ, suc, zero, ◌==◌, ◌<◌, ◌≤◌, Bool, true, Option, none, some, List, [], ◌∷◌, if◌then◌else◌, ◌≡◌,
  refl, arith, ◌⊎◌, inl, inr, Bool-cases, sym, subst, if_both, ◌∙◌, ltb, ltb→lt,
}
use go_opentelemetry.Remote.{
  RemoteConfigurator, Answer, failed, answered, Event, syncs, registers, step, run, sync,
  register_config_apply_func, on_answer, apply_all, apply_last, last_call, new_remote_configurator,
}

module _ {C : Type 0} where
  -- The last call of a function is that with the configuration; where there is none, there has been no
  -- call, or one with nil.
  abbrev pub Follows : Option C → Option (Option C) → Type 0
  Follows (some c) o = o ≡ some (some c)
  Follows none o = (o ≡ none) ⊎ (o ≡ some none)

  apply_all_lem :
      (n i : ℕ) (c : Option C) (log : List (ℕ × Option C))
      → last_call i (apply_all n c log) ≡ (if ltb i n then some c else last_call i log)
  unfolding apply_all
  apply_all_lem zero i c log = ground arith
  apply_all_lem (suc n) i c log = ground (arith, apply_all_lem n i c log)

  Follows-self : (c : Option C) → Follows c (some c)
  Follows-self none = inr refl
  Follows-self (some c) = refl

  pub record Current (rc : RemoteConfigurator C) : Type 0 where
    pub follows :
        (i : ℕ) → i < rc.config_apply_funcs → Follows rc.last_config (last_call i rc.applied)
    pub unknown : (i : ℕ) → rc.config_apply_funcs ≤ i → last_call i rc.applied ≡ none

  on_answer-Current :
      (answer : Answer C) (rc : RemoteConfigurator C) → Current rc → Current (on_answer answer rc)
  on_answer-Current failed rc v = v
  on_answer-Current (answered c) rc v = record {
    follows = λ i h.
        subst (Follows c) (sym (apply_all_lem rc.config_apply_funcs i c rc.applied ∙ ground arith))
          (Follows-self c);
    unknown =
        λ i h. apply_all_lem rc.config_apply_funcs i c rc.applied ∙ ground (arith, v.unknown i h);
  }

  apply_last-Current :
      (c : Option C) (rc : RemoteConfigurator C)
      → rc.last_config ≡ c
      → Current rc
      → (i : ℕ)
      → (i < suc rc.config_apply_funcs
          → Follows c (last_call i (apply_last c rc.config_apply_funcs rc.applied)))
        × (suc rc.config_apply_funcs ≤ i
            → last_call i (apply_last c rc.config_apply_funcs rc.applied) ≡ none)
  apply_last-Current none rc e v i = elim (Bool-cases (ltb i rc.config_apply_funcs)) [
    | inl p ↦ (
      λ h. subst (λ c. Follows c (last_call i rc.applied)) e (v.follows i (ltb→lt i _ p)),
      λ h. v.unknown i (omega arith),
    )
    | inr p ↦ (λ h. inl (v.unknown i (ground arith)), λ h. v.unknown i (omega arith))
  ]
  apply_last-Current (some c) rc e v i = elim (Bool-cases (rc.config_apply_funcs == i)) [
    | inl p ↦ (λ h. rw p refl, λ h. absurd (ground arith))
    | inr p ↦ (
      λ h. rw p (subst (λ c. Follows c (last_call i rc.applied)) e (v.follows i (ground arith))),
      λ h. rw p (v.unknown i (omega arith)),
    )
  ]

  step-Current : (w : Event C) (rc : RemoteConfigurator C) → Current rc → Current (step w rc)
  unfolding sync register_config_apply_func
  step-Current (syncs dials answer) rc v =
      if_both Current rc.has_client (on_answer-Current answer rc v) (
        if_both Current dials
          (on_answer-Current answer (record rc { has_client = true })
            (record { follows = v.follows; unknown = v.unknown }))
          v)
  step-Current registers rc v =
      let a = apply_last-Current rc.last_config rc refl v in
      record { follows = λ i h. (a i).0 h; unknown = λ i h. (a i).1 h }

  run-Current : (ws : List (Event C)) (rc : RemoteConfigurator C) → Current rc → Current (run ws rc)
  unfolding run
  run-Current [] rc v = v
  run-Current (w ∷ ws) rc v = run-Current ws (step w rc) (step-Current w rc v)

  new-Current :
      (interval : ℕ) (has_addr : Bool)
      → Current (new_remote_configurator {C = C} interval has_addr).0
  unfolding new_remote_configurator
  new-Current interval has_addr = record {
    follows = λ i h. absurd (omega arith);
    unknown = λ i h. refl;
  }

  -- Of a new configurator, whatever turns of the daemon and registrations have followed one another, with
  -- failed dials, failed calls and responses without an operation among them: each function that has been
  -- registered was last called with the last configuration, where that is not nil; where it is nil, the
  -- function has not been called, or was last called with nil.
  pub registered_follow :
      (interval : ℕ) (has_addr : Bool) (ws : List (Event C)) (i : ℕ)
      → i < (run ws (new_remote_configurator {C = C} interval has_addr).0).config_apply_funcs
      → let rc = run ws (new_remote_configurator interval has_addr).0 in
        Follows rc.last_config (last_call i rc.applied)
  registered_follow interval has_addr ws i h =
      (run-Current ws (new_remote_configurator interval has_addr).0
          (new-Current interval has_addr)).follows
        i h
