-- ===== src/Links/Worker.antt =====
-- The worker's handlers and the links.
use voip_platform.Base.{ℕ, refl, some, nat_eq}
use voip_platform.Base.Int.{ℤ}
use voip_platform.Base.Text.{Text, text_eq}
use voip_platform.Core.{Env, Site}
use voip_platform.Core.Keeps.{Keeps, Keeps-gate, keeps_rules}
use voip_platform.Core.Monad.{World, M, at}
use voip_platform.Links.{
  KeepsLinks, links_preorder, has_row-update, Links-fewer, Links-update, Links-remove,
}
use voip_platform.Worker.Answer.{Event}
use voip_platform.Worker.Cdr.{
  finalize_statistics, append_tracing, set_connected_time, update_consultant_status,
}
use voip_platform.Worker.Hangup.{refund}
use voip_platform.Worker.Loop.{dispatch}
use voip_platform.Worker.Reconcile.{reconcile_on_startup}
use voip_platform.Worker.Writes.{AllowsWrites, Keeps-attempt, dispatch-Keeps, reconcile-Keeps}

-- Neither a row's id or uuid nor a session changes.
aside : {A : Type 0} (m : M A) → ((w : World) → KeepsLinks w (m w).1) → Keeps KeepsLinks m
aside m keep = record { run = keep }

module _ {F : Type 0} (env : Env F) where
  at_Links :
      {A : Type 0} (site : Site) (m : M A)
      → ((w : World) → KeepsLinks w (m w).1)
      → Keeps KeepsLinks (at env site m)
  at_Links site m keep = Keeps-gate (env.fails site) m (aside m keep)

  refund-Links : (id : ℕ) (over : ℤ) → Keeps KeepsLinks (refund env id over)
  unfolding refund
  refund-Links id over = search (keeps_rules, Keeps-attempt, aside, Links-fewer) depth 10

  pub links_allows : AllowsWrites KeepsLinks env
  links_allows = record {
    finalize = λ site id h e c td cd cause b after rate t.
        unfold finalize_statistics in
        at_Links site _ (λ w. Links-fewer w _ (λ i u. refl) (λ u s held. held));
    tracing = λ site id st t i b a.
        unfold append_tracing in
        at_Links site _ (λ w. Links-fewer w _ (λ i u. refl) (λ u s held. held));
    connected = λ site id t.
        unfold set_connected_time in
        at_Links site _ (λ w.
          Links-fewer w _ (λ i u. has_row-update i u _ _ (λ r. refl) (λ r. refl) w.db.statistics)
            (λ u s held. held));
    status = λ site id st.
        unfold update_consultant_status in
        at_Links site _ (λ w. Links-fewer w _ (λ i u. refl) (λ u s held. held));
    online = λ id l. record { run = λ w. Links-fewer w _ (λ i u. refl) (λ u s held. held) };
    refund = refund-Links;
    answered = λ u t. Links-update u (λ s. record s { answer_time = some t }) (λ s. refl);
    deleted = Links-remove;
    counted = λ id n. record { run = λ w. Links-fewer w _ (λ i u. refl) (λ u s held. held) };
  }

  pub dispatch-Links : (event : Event) → Keeps KeepsLinks (dispatch env event)
  dispatch-Links = dispatch-Keeps env links_allows

  pub reconcile-Links : (output : Text) → Keeps KeepsLinks (reconcile_on_startup env output)
  reconcile-Links = reconcile-Keeps env links_allows
