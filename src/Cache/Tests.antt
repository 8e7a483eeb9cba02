-- ===== src/Cache/Tests.antt =====
-- A query client that keeps a table, and the theorems on it.
use dopacrm.Base.{
  ◌≡◌, refl, Bool, true, false, Option, some, [], ◌∷◌, inl, ◌==◌, ==_refl, ==_iff, Bool-cases, inr,
  ◌≢◌, if◌then◌else◌,
}
use dopacrm.Http.Json.{Json, null, str}
use dopacrm.Cache.Keys.{Key, word, key_eq, part_eq, starts_with}
use dopacrm.Cache.Queries.{Query, query_key}
use dopacrm.Cache.Mutations.{Mutation, on_success}
use dopacrm.Cache.Hooks.{Answer}
use dopacrm.Cache.Client.{QueryClient, run_effects}
use dopacrm.Cache.Client.Kept.{on_success-kept}

abbrev Table : Type 0
Table = Key → Option Json × Bool

abbrev table_invalidated : Key → Table → Table
table_invalidated p c k = if starts_with p k then ((c k).0, false) else c k

abbrev table_updated : Key → Json → Table → Table
table_updated j v c k = if j == k then (some v, true) else c k

key-ne : (j k : Key) → j ≢ k → (j == k) ≡ false
key-ne j k n = elim (Bool-cases (j == k)) [ inl e ↦ absurd (n ((==_iff j k).0 e)) | inr e ↦ e ]

table-data_of : (p k : Key) (c : Table) → (table_invalidated p c k).0 ≡ (c k).0
table-data_of p k c = elim (Bool-cases (starts_with p k)) [ inl e ↦ rw e refl | inr e ↦ rw e refl ]

abbrev table : QueryClient
table = record {
  Cache = Table;
  data_of = λ k c. (c k).0;
  is_current = λ k c. (c k).1;
  invalidated = table_invalidated;
  updated = table_updated;
  invalidated-data_of = table-data_of;
  invalidated_inside = λ p k c e. rw e refl;
  invalidated_outside = λ p k c e. rw e refl;
  updated-data_of = λ k v c. rw (==_refl k) refl;
  updated-is_current = λ k v c. rw (==_refl k) refl;
  updated_other = λ j k v c n. (rw (key-ne j k n) refl, rw (key-ne j k n) refl);
}

abbrev full : Table
full k = (some null, true)

abbrev answer : Answer
answer = record { id = "l1"; tenant_id = "t1"; json = str "Dana" }

-- A lead that has been converted.
on_success-kept_example :
    ((q : Query) × (query_key q ≡ word "leads" ∷ word "l1" ∷ []))
    × (str "Dana" ≡ str "Dana")
    × (((run_effects table (on_success (Mutation.convert_lead "l1" null) answer) full)
          (word "leads" ∷ word "l1" ∷ [])).0
        ≡ some (str "Dana"))
    × (((run_effects table (on_success (Mutation.convert_lead "l1" null) answer) full)
          (word "leads" ∷ word "l1" ∷ [])).1
        ≡ true)
on_success-kept_example =
    on_success-kept table (Mutation.convert_lead "l1" null) answer (word "leads" ∷ word "l1" ∷ [])
      (str "Dana") full (inl (refl, refl))
