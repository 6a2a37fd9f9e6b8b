-- ===== src/Tests/CopyRuns.antt =====
-- The theorems on the deep copies, at concrete data.
use mathlib.Core.Option
use rbacsync.Prelude.{
  ℕ, nat_eq, ◌==◌, String, ◌≡◌, refl, Option, some, List, [], ◌∷◌, arith, if◌then◌else◌,
}
use rbacsync.Kube.{cluster}
use rbacsync.Api.{Subject}
use rbacsync.DeepCopy.{
  nil, at, Embedded, Heap, ConfigListCell, copy_each, config_list_deep_copy_into, deep_copy_object,
}
use rbacsync.DeepCopy.Views.{view_config_list}
use rbacsync.DeepCopy.Memberships.{CopiesEmbedded}
use rbacsync.DeepCopy.Objects.{copy_object, deep_copy-reads, deep_copy-spares}
use rbacsync.Tests.Samples.{user}

abbrev meta : Embedded
meta = record {
  TypeMeta = String;
  ObjectMeta = String;
  ListMeta = String;
  copy_object_meta = λ m. m;
  copy_list_meta = λ m. m;
}

abbrev meta-CopiesEmbedded : CopiesEmbedded meta
meta-CopiesEmbedded = record { object_meta = λ m. refl; list_meta = λ m. refl }

-- Lists of subjects in which one array is overwritten.
abbrev overwritten : ℕ → (ℕ → List Subject) → ℕ → List Subject
overwritten p arrays q = if q == p then [] else arrays q

-- A list of one config: its items lie at 0, its bindings are nil, its memberships lie at 1, and the
-- subjects of its one membership at 2.
abbrev heap : Heap meta
heap = record {
  next = 3;
  subjects = λ p. user "ann" ∷ [];
  bindings = λ p. [];
  memberships = λ p. record { group = "g"; subjects = at 2 } ∷ [];
  configs = λ p.
      record {
        type_meta = "t";
        object_meta = "m";
        spec = record { bindings = nil; memberships = at 1 };
        status = record {};
      }
      ∷ [];
}

abbrev configs : ConfigListCell meta
configs = record { type_meta = "t"; list_meta = "l"; items = at 0 }

abbrev copied : Option (ConfigListCell meta) × Heap meta
copied = copy_object meta meta-CopiesEmbedded cluster configs heap

-- The heap after the copy, with the subjects of the original overwritten, and those of the copy.
abbrev left : Heap meta
left = record {
  next = copied.1.next;
  subjects = overwritten 2 copied.1.subjects;
  bindings = copied.1.bindings;
  memberships = copied.1.memberships;
  configs = copied.1.configs;
}

abbrev right : Heap meta
right = record {
  next = copied.1.next;
  subjects = overwritten 5 copied.1.subjects;
  bindings = copied.1.bindings;
  memberships = copied.1.memberships;
  configs = copied.1.configs;
}

deep_copy-reads_example :
    Option.map (view_config_list meta left) copied.0 ≡ some (view_config_list meta heap configs)
deep_copy-reads_example =
    deep_copy-reads meta meta-CopiesEmbedded cluster configs heap left
      (omega arith, ((tt, (omega arith, ((omega arith), tt))), tt))
      (record {
        subjects = λ p l u. ground arith;
        bindings = λ p l u. refl;
        memberships = λ p l u. refl;
        configs = λ p l u. refl;
      })

deep_copy-spares_example : view_config_list meta right configs ≡ view_config_list meta heap configs
unfolding deep_copy_object config_list_deep_copy_into copy_each
deep_copy-spares_example =
    deep_copy-spares meta meta-CopiesEmbedded cluster configs heap right
      (omega arith, ((tt, (omega arith, ((omega arith), tt))), tt))
      (record {
        subjects = λ p l u. ground arith;
        bindings = λ p l u. refl;
        memberships = λ p l u. refl;
        configs = λ p l u. refl;
      })
