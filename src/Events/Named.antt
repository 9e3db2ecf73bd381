-- ===== src/Events/Named.antt =====
-- Whom an event suppresses.
use panmail.Base.Text.{Text, to_lower, trim_space, ◌==◌ as text_eq}
use panmail.Base.{
  Bool-cases, List, Option-cases, [], arith, false, inl, inr, none, refl, some, subst, sym, true,
  ◌++◌, ◌∷◌, ◌≡◌, ◌⊎◌, ◌∙◌, ap, length,
}
use panmail.Events.Complete.{
  fill_missing, is_missing, look_up, look_up_latest, normalise, only_of, only_recipient, recover,
  the_one,
}
use panmail.Events.Record.{record_event, with_error}
use panmail.Events.Suppress.{IsTerminal, record_event-IsDue, recover-IsSame}
use panmail.Events.{Deps, EmailMessage, Report, World}
use mathlib.Core.Bool.{true≢false}
use text.Mathlib.Text.{◌==◌}

-- The three lists have this address and no other.
only_of-single :
    (to cc bcc : List Text)
    → (text_eq (only_of to cc bcc) [] ≡ false → (to ++ cc ++ bcc) ≡ only_of to cc bcc ∷ [])
      × ((a : Text) → (to ++ cc ++ bcc) ≡ a ∷ [] → only_of to cc bcc ≡ a)
unfolding only_of the_one length text_eq
only_of-single [] [] [] = ((λ h. ground arith), λ a h. ground arith)
only_of-single [] [] (a ∷ []) = ((λ h. refl), λ b h. ground arith)
only_of-single [] [] (a ∷ b ∷ r) = ((λ h. ground arith), λ c h. ground arith)
only_of-single [] (a ∷ []) [] = ((λ h. refl), λ b h. ground arith)
only_of-single [] (a ∷ []) (b ∷ r) = ((λ h. ground arith), λ c h. ground arith)
only_of-single [] (a ∷ b ∷ r) bcc = ((λ h. ground arith), λ c h. ground arith)
only_of-single (a ∷ []) [] [] = ((λ h. refl), λ b h. ground arith)
only_of-single (a ∷ []) [] (b ∷ r) = ((λ h. ground arith), λ c h. ground arith)
only_of-single (a ∷ []) (b ∷ r) bcc = ((λ h. ground arith), λ c h. ground arith)
only_of-single (a ∷ b ∷ r) cc bcc = ((λ h. ground arith), λ c h. ground arith)

module _ {S : Type 0} (d : Deps S) (s : S) where
  -- The address that an event is about: its own in its normal form, or else the one address that
  -- its stored message was sent to.
  abbrev pub IsAbout : Report → Text → Type 0
  IsAbout r a =
      let own = to_lower (trim_space r.recipient) in
      ((text_eq own [] ≡ false) × (own ≡ a))
      ⊎ ((text_eq own [] ≡ true)
          × ((r.message_id == "") ≡ false)
          × (m : EmailMessage) × (d.repo.get_message s r.tenant_id r.message_id ≡ some m)
          × ((m.to ++ m.cc ++ m.bcc) ≡ a ∷ []))

  recover_own :
      (q : Report) → text_eq q.recipient [] ≡ false → (recover d s q).report.recipient ≡ q.recipient
  unfolding recover look_up look_up_latest fill_missing
  recover_own q h = ground arith

  recover-none :
      (q : Report)
      → text_eq q.recipient [] ≡ true
      → ((q.message_id == "") ≡ true) ⊎ (d.repo.get_message s q.tenant_id q.message_id ≡ none)
      → text_eq (recover d s q).report.recipient [] ≡ true
  unfolding recover look_up look_up_latest fill_missing
  recover-none q h (inl e) = ground arith
  recover-none q h (inr e) = ground arith

  recover_found :
      (q : Report) (m : EmailMessage)
      → text_eq q.recipient [] ≡ true
      → (q.message_id == "") ≡ false
      → d.repo.get_message s q.tenant_id q.message_id ≡ some m
      → (recover d s q).report.recipient ≡ only_recipient m
  unfolding recover look_up fill_missing is_missing
  recover_found q m h n e = ground arith

  recover-IsAbout :
      (r : Report)
      → let f = (recover d s (normalise d r)).report in
        (text_eq f.recipient [] ≡ false → IsAbout r f.recipient)
        × ((a : Text) → IsAbout r a → f.recipient ≡ a)
  unfolding normalise only_recipient
  recover-IsAbout r =
      let q = normalise d r in
      elim (Bool-cases (text_eq q.recipient [])) [
        | inr given ↦
            let own = recover_own q given in
            (
              (λ h. inl (given, sym own)),
              λ a h. elim h [
                | inl (_, e) ↦ own ∙ e
                | inr (blank, _, _, _, _) ↦ absurd (true≢false (sym blank ∙ given))
              ],
            )
        | inl blank ↦ (
          (λ h. elim (Bool-cases (q.message_id == "")) [
            | inl n ↦ absurd (true≢false (sym (recover-none q blank (inl n)) ∙ h))
            | inr n ↦ elim (Option-cases (d.repo.get_message s q.tenant_id q.message_id)) [
              | inl e ↦ absurd (true≢false (sym (recover-none q blank (inr e)) ∙ h))
              | inr (m, e) ↦
                  let found = recover_found q m blank n e in
                  inr (
                    blank,
                    n,
                    m,
                    e,
                    subst (λ x. (m.to ++ m.cc ++ m.bcc) ≡ x ∷ []) (sym found)
                        ((only_of-single m.to m.cc m.bcc).0
                          (subst (λ x. text_eq x [] ≡ false) found h)),
                  )
            ]
          ]),
          λ a h. elim h [
            | inl (given, _) ↦ absurd (true≢false (sym blank ∙ given))
            | inr (_, n, m, e, single) ↦
                recover_found q m blank n e ∙ (only_of-single m.to m.cc m.bcc).1 a single
          ],
        )
      ]

module _ {S : Type 0} (d : Deps S) where
  -- What suppresses an address: a terminal event about it that was written, for a tenant, where
  -- there is a suppression list.
  abbrev pub Deserves : Report → World S → Text → Type 0
  Deserves r w a =
      ((record_event d r w).1 ≡ true)
      × (d.has_suppressions ≡ true)
      × ((r.tenant_id == "") ≡ false)
      × (text_eq a [] ≡ false)
      × IsAbout d w.store r a
      × IsTerminal d.patterns r

  -- Recording an event asks for one suppression, of the address that it is about, exactly if the
  -- event was written, there is a suppression list and a tenant, and the event is reported as a
  -- hard bounce or a complaint, or is a bounce whose error is final and tells of a complaint or a
  -- hard bounce. The address is the recipient that the event names, in its normal form; or, where
  -- it names none, the only address of the message stored under its id. In every other case nothing
  -- is asked for.
  pub record_event-suppressed :
      (r : Report) (w : World S)
      → (((record_event d r w).0.suppressed ≡ w.suppressed)
          × ¬ ((address : Text) × Deserves r w address))
        ⊎ ((address : Text) × (reason : Text) × ((record_event d r w).0.suppressed
              ≡ w.suppressed
                ++ record { tenant_id = r.tenant_id; email = address; reason = reason } ∷ [])
            × Deserves r w address)
  unfolding normalise
  record_event-suppressed r w =
      let f = (recover d w.store (normalise d r)).report in
      let same = (recover-IsSame d w.store (normalise d r)).tenant_id in
      let (about, only) = recover-IsAbout d w.store r in
      elim (record_event-IsDue d r w) [
        | inl (kept, not_due) ↦ inl (
          kept,
          λ (a, (ok, list, tenant, given, named, terminal)). not_due (
            ok,
            (list, ap (λ x. text_eq x []) (only a named) ∙ given, ap (λ x. x == "") same ∙ tenant),
            terminal,
          ),
        )
        | inr (reason, asked, (ok, (list, given, tenant), terminal)) ↦ inr (
          f.recipient,
          with_error reason f.error_message,
          asked
              ∙ ap
                  (λ t.
                    w.suppressed
                    ++ record {
                      tenant_id = t;
                      email = f.recipient;
                      reason = with_error reason f.error_message;
                    }
                      ∷ [])
                  same,
          (ok, list, sym (ap (λ x. x == "") same) ∙ tenant, given, about given, terminal),
        )
      ]
