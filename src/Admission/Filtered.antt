-- ===== src/Admission/Filtered.antt =====
-- The end of a send from the rendering of its template and the filter on.
use panmail.Admission.Content.{render_template, screen, screened_message}
use panmail.Admission.Send.{
  act, act_on, decide, event, marshal_and_write, name_of, record_all, queued_email,
  render_and_screen, screen_and_act, status_of,
}
use panmail.Admission.Written.{
  Ends, Ends-write_outbox, IsKeyed, IsUnsent, is_pending, other_history, unchanged,
}
use panmail.Admission.{Gateway, Response, SendEmailRequest, World, accepted, refused, replayed}
use panmail.Base.Text.{codes}
use panmail.Base.{
  Bool, Option, Option-cases, String, [], false, if◌then◌else◌, inl, inr, map, none, not, refl,
  some, true, ℕ, ◌&&◌, ◌+◌, ◌++◌, ◌∷◌, ◌≡◌, ◌⊎◌, ◌∙◌, subst, ap,
}
use panmail.Outbox.{create}
use panmail.Bounce.{pending, rejected}
use panmail.EmailFilter.Rule.{Action, Decision, hold, reject, tag, allow, other_action}
use panmail.RateLimit.{Limiter}
use panmail.Recipients.{ResolvedRecipients}

-- What the checks before the write may change is elsewhere.
pub record IsLike (w w' : World) : Type 0 where
  pub rows : w'.rows ≡ w.rows
  pub keys : w'.keys ≡ w.keys
  pub messages : w'.messages ≡ w.messages
  pub sent_copies : w'.sent_copies ≡ w.sent_copies
  pub wakes : w'.wakes ≡ w.wakes
  pub events : w'.events ≡ w.events

module _ {Pattern : Type 0} (g : Gateway Pattern) (now : ℕ) (tenant_id : String)
    (r : SendEmailRequest) where
  pub IsUnsent-like :
      (w w' u : World)
      → IsLike w w'
      → IsUnsent g now tenant_id r w' u
      → IsUnsent g now tenant_id r w u
  IsUnsent-like w w' u s h = record {
    rows = h.rows ∙ s.rows;
    keys = subst (λ k. (u.keys ≡ k) ⊎ (u.keys ≡ g.others k)) s.keys h.keys;
    messages = h.messages ∙ s.messages;
    sent_copies = h.sent_copies ∙ s.sent_copies;
    wakes = h.wakes ∙ s.wakes;
    noted = h.noted;
    events = subst (λ e. u.events ≡ e ++ h.noted) s.events h.events;
    history = h.history;
  }

  module _ (rs : ResolvedRecipients) where
    pub Ends-like :
        (w w' : World) (l : Limiter) (x : World × Response)
        → IsLike w w'
        → Ends g now tenant_id r w' l rs x
        → Ends g now tenant_id r w l rs x
    Ends-like w w' l (u, refused fault) s h = IsUnsent-like w w' u s h
    Ends-like w w' l (u, replayed id) s h = IsUnsent-like w w' u s h
    Ends-like w w' l (u, accepted id) s (same, q, e) = (
      same,
      record {
        is_held = q.is_held;
        bytes = q.bytes;
        marshalled = q.marshalled;
        row =
            q.row
            ∙ ap
                (create
                  (queued_email g now tenant_id r (status_of g now tenant_id r q.is_held) q.bytes))
                s.rows;
        key = subst (λ k. IsKeyed g now tenant_id r k u.keys) s.keys q.key;
        events =
            subst
              (λ e.
                u.events ≡ e ++ map (event g now tenant_id r pending r.provider_id []) rs.addresses)
              s.events q.events;
        message = subst (λ m. u.messages ≡ m ++ g.new_id ∷ []) s.messages q.message;
        wakes =
            subst (λ n. u.wakes ≡ (if not q.is_held && g.has_worker then n + 1 else n)) s.wakes
              q.wakes;
      },
      e,
    )

    Ends-marshal_and_write :
        (is_held : Bool) (hash : String) (w : World)
        → Ends g now tenant_id r w w.limiter rs
            (marshal_and_write g now tenant_id r is_held rs hash w)
    unfolding marshal_and_write
    Ends-marshal_and_write is_held hash w = elim (Option-cases (g.marshal r)) [
      | inl e ↦ rw (e, marshal_and_write) (unchanged g now tenant_id r w)
      | inr (bytes, e) ↦
          rw (e, marshal_and_write)
            (Ends-write_outbox g now tenant_id r rs g.creates is_held hash bytes w e)
    ]

    Ends-act :
        (d : Decision Pattern) (action : Action) (hash : String) (w : World)
        → Ends g now tenant_id r w w.limiter rs (act g now tenant_id r d action rs hash w)
    unfolding act is_pending
    Ends-act d reject hash w =
        let error = codes "filter rule: " ++ name_of g now tenant_id r d.rule in
        unfold record_all decide in
        record {
          rows = refl;
          keys = inl refl;
          messages = refl;
          sent_copies = refl;
          wakes = refl;
          noted = map (event g now tenant_id r rejected r.provider_id error) rs.addresses;
          events = refl;
          history = other_history g now tenant_id r rejected error rs.addresses refl;
        }
    Ends-act d hold hash w = Ends-marshal_and_write true hash w
    Ends-act d tag hash w =
        Ends-like w (decide g now tenant_id r tag "" w) w.limiter _
          (unfold decide in
            record {
              rows = refl;
              keys = refl;
              messages = refl;
              sent_copies = refl;
              wakes = refl;
              events = refl;
            })
          (unfold decide in Ends-marshal_and_write false hash (decide g now tenant_id r tag "" w))
    Ends-act d allow hash w = Ends-marshal_and_write false hash w
    Ends-act d (other_action t) hash w = Ends-marshal_and_write false hash w

    Ends-act_on :
        (d : Decision Pattern) (action : Option Action) (hash : String) (w : World)
        → Ends g now tenant_id r w w.limiter rs (act_on g now tenant_id r d action rs hash w)
    unfolding act_on
    Ends-act_on d none hash w = Ends-marshal_and_write false hash w
    Ends-act_on d (some action) hash w = Ends-act d action hash w

    pub Ends-render_and_screen :
        (hash : String) (w : World)
        → Ends g now tenant_id r w w.limiter rs (render_and_screen g now tenant_id r rs hash w)
    unfolding render_and_screen screen_and_act
    Ends-render_and_screen hash w = elim (Option-cases (render_template g r)) [
      | inl e ↦ rw (e, render_and_screen) (unchanged g now tenant_id r w)
      | inr (content, e) ↦ elim (Option-cases (screen g (screened_message r content))) [
        | inl f ↦ rw (e, render_and_screen) (rw (f, screen_and_act) (unchanged g now tenant_id r w))
        | inr (d, f) ↦
            rw (e, render_and_screen) (rw (f, screen_and_act) (Ends-act_on d d.action hash w))
      ]
    ]
