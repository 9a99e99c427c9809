-- ===== src/Notify/Manager/Sessions.antt =====
-- The life of the notifier's subscriptions: Subscribe and Close in any order.
use mathlib.Core.List.{append-nil, append_assoc}
use cheshmhayash.Common.{
  ◌≡◌, refl, sym, ap, ◌∙◌, inl, inr, Bool, not, String, List, [], ◌++◌, Bool-cases, if◌then◌else◌,
}
use cheshmhayash.Notify.Manager.{
  Manager, Subscription, enabled, opened, subscribe, close, advisory_subjects,
}

-- What Subscribe opens at NATS.
unfoldable pub opens : (String → Bool) → String → Manager → List Subscription
unfolding enabled opened
opens accepts cluster m = if not (enabled m) then [] else opened accepts cluster advisory_subjects

-- The calls so far: the manager, the subscriptions that were opened and those that were ended, in
-- order. `accepts` may differ from call to call.
pub data Run (start : Manager) : Manager → List Subscription → List Subscription → Type 0 where
  begin : Run start start start.subs []
  subscribing :
      (accepts : String → Bool) (cluster : String) (m : Manager) (started ended : List Subscription)
      → Run start m started ended
      → Run start (subscribe accepts cluster m) (started ++ opens accepts cluster m) ended
  closing :
      (m : Manager) (started ended : List Subscription)
      → Run start m started ended
      → Run start (close m).1 started (ended ++ (close m).0)

subscribe-subs :
    (accepts : String → Bool) (cluster : String) (m : Manager)
    → (subscribe accepts cluster m).subs ≡ m.subs ++ opens accepts cluster m
unfolding subscribe opens
subscribe-subs accepts cluster m = elim (Bool-cases (enabled m)) [
  | inl on ↦ rw on refl
  | inr off ↦ rw off (sym (append-nil m.subs))
]

-- At any time the subscriptions that were opened are those that were ended, each once and in order,
-- and after them those that the manager holds. So Close leaves none open, and a second Close ends
-- nothing.
pub Run-subs :
    (start m : Manager) (started ended : List Subscription)
    → Run start m started ended
    → (started ≡ ended ++ m.subs) × ((close m).1.subs ≡ []) × ((close (close m).1).0 ≡ [])
unfolding close
Run-subs start m started ended run = (held run, refl, refl)
  where
    held : {n : Manager} {s e : List Subscription} → Run start n s e → s ≡ e ++ n.subs
    held begin = refl
    held (subscribing accepts cluster n s e r) =
        ap (λ ss. ss ++ opens accepts cluster n) (held r)
        ∙ append_assoc e n.subs (opens accepts cluster n)
        ∙ ap (λ ss. e ++ ss) (sym (subscribe-subs accepts cluster n))
    held (closing n s e r) = held r ∙ sym (append-nil (e ++ n.subs))
