-- ===== src/Protocol/Maps.antt =====
-- The handlers that are registered for frame types.
use haier_protocol_emulator.Prelude.{
  ℕ, ◌≡◌, ◌≢◌, Bool-cases, inl, inr, List, [], ◌∷◌, Option, some, none, ◌==◌, ==→eq, eq→==, ne→==,
  if◌then◌else◌, refl, ap, sym, ◌∙◌,
}
use haier_protocol_emulator.Protocol.{
  find, assign, erase, find_or, or_default, ProtocolHandler, MessageHandler, set_message_handler,
  remove_message_handler, AnswerHandler, TimeoutHandler, set_answer_handler, remove_answer_handler,
  set_timeout_handler, remove_timeout_handler,
}

module _ {ℓ} {A : Type ℓ} where
  pub find-assign : (es : List (ℕ × A)) (k : ℕ) (a : A) → find (assign es k a) k ≡ some a
  find-assign [] k a = rw (eq→== k k refl) refl
  find-assign (e ∷ es) k a = elim (Bool-cases (e.0 == k)) [
    | inl same ↦ rw (same, eq→== k k refl) refl
    | inr other ↦ rw (other, other) (find-assign es k a)
  ]

  pub find-assign_other :
      (es : List (ℕ × A)) (k j : ℕ) (a : A) → j ≢ k → find (assign es k a) j ≡ find es j
  find-assign_other [] k j a h = rw (ne→== k j (λ e. h (sym e))) refl
  find-assign_other (e ∷ es) k j a h = elim (Bool-cases (e.0 == k)) [
    | inl same ↦
        rw (same, ne→== k j (λ e. h (sym e)), ne→== e.0 j (λ q. h (sym q ∙ ==→eq e.0 k same))) refl
    | inr other ↦
        rw other
          (ap (λ (r : Option A). if e.0 == j then some e.1 else r) (find-assign_other es k j a h))
  ]

  find-erase : (es : List (ℕ × A)) (k : ℕ) → find (erase es k) k ≡ none
  find-erase [] k = refl
  find-erase (e ∷ es) k = elim (Bool-cases (e.0 == k)) [
    | inl same ↦ rw same (find-erase es k)
    | inr other ↦ rw (other, other) (find-erase es k)
  ]

  find-erase_other : (es : List (ℕ × A)) (k j : ℕ) → j ≢ k → find (erase es k) j ≡ find es j
  find-erase_other [] k j h = refl
  find-erase_other (e ∷ es) k j h = elim (Bool-cases (e.0 == k)) [
    | inl same ↦
        rw (same, ne→== e.0 j (λ q. h (sym q ∙ ==→eq e.0 k same))) (find-erase_other es k j h)
    | inr other ↦
        rw other
          (ap (λ (r : Option A). if e.0 == j then some e.1 else r) (find-erase_other es k j h))
  ]

  -- What registering and removing a handler for the type `t` mean for it and for another type `j`.
  abbrev pub Registry : List (ℕ × A) → List (ℕ × A) → List (ℕ × A) → ℕ → ℕ → A → A → Type ℓ
  Registry es added removed t j h default =
      (find_or added t default ≡ h)
      × (find_or added j default ≡ find_or es j default)
      × (find_or removed t default ≡ default)
      × (find_or removed j default ≡ find_or es j default)

  registry_lem :
      (es : List (ℕ × A)) (t j : ℕ) (h default : A)
      → j ≢ t
      → Registry es (assign es t h) (erase es t) t j h default
  registry_lem es t j h default o = (
    falls_back (find-assign es t h),
    falls_back (find-assign_other es t j h o),
    falls_back (find-erase es t),
    falls_back (find-erase_other es t j o),
  )
    where
      falls_back : {a b : Option A} → a ≡ b → or_default a default ≡ or_default b default
      falls_back e = ap (λ (r : Option A). or_default r default) e

-- For messages, answers and timeouts alike: the handler that is registered for a frame type is the
-- one that is found for it, the handlers of the other types stay, after its removal the default
-- handler takes its place, and the removal too leaves the other types alone.
pub handlers_lem :
    (s : ProtocolHandler) (t j : ℕ) (m : MessageHandler) (a : AnswerHandler) (o : TimeoutHandler)
    → j ≢ t
    → Registry s.message_handlers_map
        (set_message_handler s t m).message_handlers_map
        (remove_message_handler s t).message_handlers_map
        t
        j
        m
        s.message_handler
      × Registry s.answer_handlers_map
          (set_answer_handler s t a).answer_handlers_map
          (remove_answer_handler s t).answer_handlers_map
          t
          j
          a
          s.answer_handler
      × Registry s.timeout_handlers_map
          (set_timeout_handler s t o).timeout_handlers_map
          (remove_timeout_handler s t).timeout_handlers_map
          t
          j
          o
          s.timeout_handler
unfolding set_message_handler remove_message_handler set_answer_handler remove_answer_handler
    set_timeout_handler remove_timeout_handler
handlers_lem s t j m a o h = (
  registry_lem s.message_handlers_map t j m s.message_handler h,
  registry_lem s.answer_handlers_map t j a s.answer_handler h,
  registry_lem s.timeout_handlers_map t j o s.timeout_handler h,
)
