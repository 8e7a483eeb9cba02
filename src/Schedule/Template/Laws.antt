-- ===== src/Schedule/Template/Laws.antt =====
-- What the form sends, against what the server makes of it.
use dopacrm.Base.{
  ◌≡◌, refl, Bool, true, false, not, String, Option, none, some, List, [], ◌∷◌, ℕ, ltb, eqb, length,
  all, Bool-cases, inl, inr, arith, if◌then◌else◌,
}
use mathlib.Core.Path.{subst}
use mathlib.Core.Option.{none-ne-some, some-injective}
use dopacrm.Auth.Types.{User}
use dopacrm.Coaches.Weekdays.{valid_weekdays}
use dopacrm.Coaches.Weekdays.Laws.{toggle-valid_weekdays}
use dopacrm.Server.Schedule.{CreateTemplate, time_order, template_error}
use dopacrm.Schedule.Template.{
  Form, first_form, Edit, class_to, head_to, assistant_to, day_toggled, start_to, end_to, offered,
  edit, edits, request_of, submit_fields, submit_template, can_edit,
}

edit-valid_weekdays :
    (e : Edit) (f : Form)
    → offered e ≡ true
    → valid_weekdays f.weekdays ≡ true
    → valid_weekdays (edit e f).weekdays ≡ true
unfolding edit offered
edit-valid_weekdays (day_toggled code) f o h = toggle-valid_weekdays false code f.weekdays o h
edit-valid_weekdays (class_to c) f o h = h
edit-valid_weekdays (head_to c) f o h = h
edit-valid_weekdays (assistant_to c) f o h = h
edit-valid_weekdays (start_to t) f o h = h
edit-valid_weekdays (end_to t) f o h = h

edits-valid_weekdays :
    (es : List Edit) (f : Form)
    → all offered es ≡ true
    → valid_weekdays f.weekdays ≡ true
    → valid_weekdays (edits es f).weekdays ≡ true
edits-valid_weekdays [] f o h = h
edits-valid_weekdays (e ∷ es) f o h =
    edits-valid_weekdays es (edit e f) (ground arith) (edit-valid_weekdays e f (ground arith) h)

submit_fields-weekdays :
    (f : Form) (class head : Option String) (start end : Option ℕ) (r : CreateTemplate)
    → submit_fields f class head start end ≡ some r
    → (eqb (length r.weekdays) 0 ≡ false) × (f.weekdays ≡ r.weekdays)
submit_fields-weekdays f (some class) (some head) (some start) (some end) r sent =
    elim (Bool-cases (eqb (length f.weekdays) 0)) [
      | inl empty ↦ absurd (none-ne-some r (rw empty at sent))
      | inr some_day ↦
          subst (λ x. (eqb (length x.weekdays) 0 ≡ false) × (f.weekdays ≡ x.weekdays))
            (some-injective (request_of f class head start end) r (rw some_day at sent))
            (some_day, refl)
    ]
submit_fields-weekdays f none head start end r sent = absurd (none-ne-some r sent)
submit_fields-weekdays f (some class) none start end r sent = absurd (none-ne-some r sent)
submit_fields-weekdays f (some class) (some head) none end r sent = absurd (none-ne-some r sent)
submit_fields-weekdays f (some class) (some head) (some start) none r sent =
    absurd (none-ne-some r sent)

turned :
    {A : Type 0} (b : Bool) (x : A)
    → (if not b then some x else none) ≡ (if b then none else some x)
turned true x = refl
turned false x = refl

-- A user to whom the page shows the form edits it, in whatever order, and sends it. Of the server's checks of
-- the request, of the caller's role and of the table only the last can refuse it, and it does so exactly where
-- the class does not end after it starts.
pub submit_template-error :
    (user : User) (es : List Edit) (r : CreateTemplate)
    → can_edit (some user) ≡ true
    → all offered es ≡ true
    → submit_template (edits es first_form) ≡ some r
    → template_error user r ≡ (if ltb r.start_time r.end_time then none else some time_order)
unfolding can_edit template_error valid_weekdays
submit_template-error user es r may seen sent =
    let f = edits es first_form in
    let (full, same) =
      submit_fields-weekdays f f.class f.head_coach f.start_time f.end_time r sent in
    let valid : valid_weekdays r.weekdays ≡ true =
      subst (λ ws. valid_weekdays ws ≡ true) same (edits-valid_weekdays es first_form seen refl) in
    rw (full, valid, may) (turned (ltb r.start_time r.end_time) time_order)
