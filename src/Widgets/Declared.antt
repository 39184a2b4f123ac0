-- ===== src/Widgets/Declared.antt =====
-- app/services/validation.py on the lists of fields that app/services/widgets.py lets through: the
-- dict of declared fields loses none of them.
use flyrank_capstone_widgetp.Base.{
  String, false, ◌≡◌, refl, ◌∙◌, List, [], ◌∷◌, ◌++◌, arith, any, map, All, All-append, str_eq,
  insert,
}
use flyrank_capstone_widgetp.Config.{Config}
use flyrank_capstone_widgetp.Http.{ok}
use flyrank_capstone_widgetp.Schema.{Field}
use flyrank_capstone_widgetp.Validation.{declare_from, declared_fields}
use flyrank_capstone_widgetp.Widgets.{check_fields, names_of}
use flyrank_capstone_widgetp.Widgets.Fields.{Unique, check_fields-IsUsable}

abbrev named : List Field → List (String × Field)
named = map (λ f. (f.name, f))

abbrev IsNew : String → List (String × Field) → Type 0
IsNew n d = All (λ e. str_eq e.0 n ≡ false) d

insert_new :
    (n : String) (f : Field) (d : List (String × Field))
    → IsNew n d
    → insert n f d ≡ d ++ (n, f) ∷ []
unfolding insert
insert_new n f [] h = refl
insert_new n f (e ∷ d) h = rw (h.0, insert_new n f d h.1) refl

-- A name that none of the later fields has is new to each of them.
All-IsNew :
    (f : Field) (d : List (String × Field)) (fs : List Field)
    → any (str_eq f.name) (names_of fs) ≡ false
    → All (λ g. IsNew g.name d) fs
    → All (λ g. IsNew g.name (d ++ (f.name, f) ∷ [])) fs
All-IsNew f d [] n h = tt
All-IsNew f d (g ∷ fs) n h = (
  All-append (λ e. str_eq e.0 g.name ≡ false) d _ h.0 (ground arith, tt),
  All-IsNew f d fs (ground arith) h.1,
)

append_one :
    (d rest : List (String × Field)) (e : String × Field) → (d ++ e ∷ []) ++ rest ≡ d ++ e ∷ rest
append_one [] rest e = refl
append_one (x ∷ d) rest e = rw (append_one d rest e) refl

declare_from-append :
    (d : List (String × Field)) (fs : List Field)
    → Unique (names_of fs)
    → All (λ f. IsNew f.name d) fs
    → declare_from d fs ≡ d ++ named fs
declare_from-append [] [] u h = refl
declare_from-append (e ∷ d) [] u h = rw (← declare_from-append d [] tt tt) refl
declare_from-append d (f ∷ fs) u h = rw (insert_new f.name f d h.0) (
    declare_from-append (d ++ (f.name, f) ∷ []) fs u.1 (All-IsNew f d fs u.0 h.1)
    ∙ append_one d (named fs) (f.name, f))

nothing_declared : (fs : List Field) → All (λ f. IsNew f.name []) fs
nothing_declared [] = tt
nothing_declared (f ∷ fs) = (tt, nothing_declared fs)

-- A list of fields that a widget may have is validated by each of its fields, in their order: the
-- dict that the validation builds of them loses none.
pub declared_fields-map :
    (cfg : Config) (fields : List Field)
    → check_fields cfg fields ≡ ok tt
    → declared_fields fields ≡ map (λ f. (f.name, f)) fields
declared_fields-map cfg fields h =
    declare_from-append [] fields ((check_fields-IsUsable cfg fields).0 h).unique
      (nothing_declared fields)
