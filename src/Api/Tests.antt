-- ===== src/Api/Tests.antt =====
-- Runs of the api functions.
use dopacrm.Base.{◌≡◌, refl, none, some, string_eq, decimal, [], ◌∷◌}
use dopacrm.Api.Params.{to_string}
use dopacrm.Api.Members.{MemberFilters, member_filters_params}

abbrev filters : MemberFilters
filters = record {
  status = some ("active" ∷ "frozen" ∷ []);
  search = some "a&limit=9";
  limit = some 50;
  offset = none;
}

params-text :
    to_string (member_filters_params filters)
    ≡ "status=active&status=frozen&search=a%26limit%3D9&limit=50"
unfolding to_string string_eq decimal
params-text = refl
