-- ===== src/Controller/Bindings/Names.antt =====
-- The names of the objects of pkg/controller/controller.go: the parts are joined by dashes, which the
-- parts may have too.
use text.Mathlib.TextLemmas.{append_assoc}
use rbacsync.Prelude.{String, ◌<>◌, ◌≡◌, sym, ◌∙◌, ap}
use rbacsync.Api.{Config}
use rbacsync.Controller.Bindings.{bound_name}

-- Whatever the kinds of the roles: the binding of a group to a role whose name has a dash, and the
-- binding of the group with the part before the dash appended to the role with the rest, stand for
-- the same object.
pub bound_name-dash :
    (config : Config) (group part rest kind kind' api_group : String)
    → bound_name config (record {
      group = group;
      role_ref = record { api_group = api_group; kind = kind; name = part <> ("-" <> rest) };
    })
      ≡ bound_name config (record {
        group = group <> ("-" <> part);
        role_ref = record { api_group = api_group; kind = kind'; name = rest };
      })
unfolding bound_name
bound_name-dash config group part rest kind kind' api_group =
    ap (λ t. config.metadata.name <> ("-" <> t))
      (ap (λ t. group <> t) (sym (append_assoc "-" part ("-" <> rest)))
        ∙ sym (append_assoc group ("-" <> part) ("-" <> rest)))
