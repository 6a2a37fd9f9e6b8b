-- ===== src/Tests/GsuiteRuns.antt =====
-- The theorems on the gsuite grouper, applied to a directory of one user.
use rbacsync.Prelude.{
  false, String, string_eq, nat_eq, ◌≡◌, ◌↔◌, refl, ◌==◌, true, none, some, [], ◌∷◌,
}
use native.Mathlib.Decide.{ℕ_discrete}
use rbacsync.Api.{Config}
use rbacsync.Kube.{Kube, namespaced}
use rbacsync.Groups.{empty_grouper}
use rbacsync.Controller.Effects
use rbacsync.Controller.Resolve.{resolve_groups}
use rbacsync.Controller.Bindings.{bind_all}
use rbacsync.Controller.Bindings.Reports.{Reports}
use rbacsync.Command.{Platform, resolve_config, GsuiteFlags, choose_grouper}
use rbacsync.Command.Laws.{resolve_config-lost, choose_grouper-Reports}
use rbacsync.Integers.{pos}
use rbacsync.Errors.{ok, err}
use rbacsync.Groups.Subjects.Laws.{forward}
use rbacsync.Gsuite.{Directory, World, GsuiteGrouper, gsuite_members, new_grouper, default_timeout}
use rbacsync.Gsuite.Laws.{Answers, fetched, gsuite_members_lem, IsConfigured, new_grouper-ok}
use rbacsync.Tests.Samples.{Failure, other, failures, failures-IsLawful, memory, config_with, view}

-- Expressions match themselves alone.
abbrev pub directory : Directory failures
directory = record {
  Outside = Unit;
  Regexp = String;
  JwtConfig = String;
  Service = String;
  Context = Unit;
  Member = String;
  email = λ m. m;
  compile = λ p. ok p;
  match_string = λ re group. re == group;
  pattern_of = λ re. re;
  read_file = λ path w. (ok "key", w);
  jwt_config_from_json = λ bytes. ok bytes;
  with_subject = λ c subject. subject;
  new_service = λ c w. (ok c, w);
  with_timeout = λ t w. (tt, w);
  cancel = λ c w. w;
  now = λ w. (0, w);
  list_pages = λ s c group w. (((("ann" ∷ []) ∷ ("bob" ∷ []) ∷ []), none), w);
  context_err = λ c w. (none, w);
  google_code = λ e. none;
}

abbrev world : World failures directory
world = record { outside = tt; metrics = [] }

abbrev grouper : GsuiteGrouper failures directory
grouper = record { config = "admin"; timeout = default_timeout; re = some "g" }

gsuite_members_lem_example :
    Answers failures directory forward
      (fetched failures directory grouper "g" world)
      (gsuite_members failures directory forward grouper "g" world).0
gsuite_members_lem_example =
    gsuite_members_lem failures directory failures-IsLawful forward grouper "g" world

abbrev pattern : String
pattern = "g"

new_grouper-ok_example :
    IsConfigured failures directory "path" "admin" (pos 0) tt grouper
    × ((some pattern ≡ none) ↔ (pattern ≡ ""))
unfolding new_grouper string_eq nat_eq ℕ_discrete
new_grouper-ok_example =
    new_grouper-ok failures directory "path" "admin" "g" (pos 0) tt grouper refl

-- A machine without the file, outside of a cluster; and one with the file.
abbrev bare : Platform failures
bare = record {
  ClusterConfig = String;
  stat = λ path. some (other "no such file");
  is_not_exist = λ e. true;
  in_cluster_config = err (other "not in a cluster");
  build_config_from_flags = λ master path. ok path;
}

abbrev pub desk : Platform failures
desk = record bare { stat = λ path. none }

resolve_config-lost_example :
    (x : Failure) × (resolve_config failures bare "/home/.kube/config" ≡ err x)
    × (failures.cause x ≡ other "no such file")
resolve_config-lost_example =
    resolve_config-lost failures bare failures-IsLawful "/home/.kube/config" (other "no such file")
      (other "not in a cluster") refl refl refl

abbrev pub flags : GsuiteFlags
flags = record {
  enabled = false;
  credentials_path = "";
  delegator = "";
  pattern = "";
  timeout = pos 0;
}

abbrev server : Kube failures
server = memory false []

abbrev config : Config
config = config_with (view "g" ∷ [])

abbrev at_start : Effects.World failures server (World failures directory)
at_start = record { server = λ k. none; upstream = world; effects = [] }

choose_grouper-Reports_example :
    Reports failures server
      (World failures directory)
      namespaced
      config
      (resolve_groups forward failures
        (World failures directory)
        (some (empty_grouper failures (World failures directory)))
        [])
      (view "g" ∷ [])
      at_start
      (bind_all failures server
        (World failures directory)
        namespaced
        config
        (resolve_groups forward failures
          (World failures directory)
          (some (empty_grouper failures (World failures directory)))
          [])
        (view "g" ∷ [])
        []
        at_start).1
unfolding choose_grouper
choose_grouper-Reports_example =
    choose_grouper-Reports failures failures-IsLawful directory forward server namespaced config
      flags tt (empty_grouper failures (World failures directory)) at_start refl
