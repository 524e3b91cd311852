-- ===== src/Conf/Listeners.antt =====
-- What the loops of `_listener_from_conf` collect.
use Prim.Native.String.{String, len}
use ntrt.Prelude.{
  ℕ, suc, arith, ◌<◌, ◌+◌, ◌≡◌, refl, sym, ap, ◌∙◌, Option, none, some, List, [], ◌∷◌, ◌++◌, length,
}
use ntrt.Prelude.Int.{ℤ, pos}
use ntrt.Feature.Monad.{Container}
use ntrt.Feature.Table.{Feature}
use ntrt.Group.{Prototype}
use ntrt.Dmap.{Row, visit_all}
use ntrt.Slist.{slist_append, slist_append_lem, append_nil, append_step}
use ntrt.Listener.{EvaluatorItem, Listener, max_mapped_vars}
use ntrt.Recorder.{MappedVar}
use ntrt.Dmap.Update.{AllItems}
use ntrt.Conf.{find_named, get_feature_by_identifier}
use ntrt.Conf.Section.{
  Key, feature, groupcounter, prototype_identifier, zero_container, add_evaluators, add_prototypes,
  Tables, to_uint32, read_mapped_ids, make_listener, listener_from_conf, strcpy, filled_listener,
}
use ntrt.Conf.Mapped.{map_ids, read_mapped_ids_lem}

-- The items of the features that were found.
abbrev pub found : List (Option Feature × Container) → List EvaluatorItem
found [] = []
found ((none, c) ∷ os) = found os
found ((some f, c) ∷ os) = record { feature = f; evaluator_container = c } ∷ found os

abbrev pub found_prototypes : List (Option Prototype) → List Prototype
found_prototypes [] = []
found_prototypes (none ∷ os) = found_prototypes os
found_prototypes (some p ∷ os) = p ∷ found_prototypes os

module _ (getstring : Key → String → String) (getint : Key → ℤ → ℤ)
    (sscanf : String → String → List ℤ) where
  -- The keys from feature `i` on are resolved to these outcomes.
  unfoldable pub Resolves :
      List (Option (Row Feature)) → ℕ → List (Option Feature × Container) → Type 0
  Resolves rows i [] = Unit
  Resolves rows i (o ∷ os) =
      (get_feature_by_identifier sscanf rows (getstring (feature i) "") zero_container ≡ some o)
      × Resolves rows (i + 1) os

  unfoldable pub Finds : List (Option (Row Prototype)) → ℕ → List (Option Prototype) → Type 0
  Finds rows i [] = Unit
  Finds rows i (o ∷ os) =
      (find_named prototype_identifier (getstring (groupcounter i) "") (visit_all rows) ≡ some o)
      × Finds rows (i + 1) os

  add_none :
      (rows : List (Option (Row Feature))) (n i : ℕ) (c : Container) (acc : List EvaluatorItem)
      → get_feature_by_identifier sscanf rows (getstring (feature i) "") zero_container
        ≡ some (none, c)
      → add_evaluators getstring getint sscanf rows (suc n) i acc
        ≡ add_evaluators getstring getint sscanf rows n (i + 1) acc
  unfolding add_evaluators
  add_none rows n i c acc e = cc

  add_some :
      (rows : List (Option (Row Feature))) (n i : ℕ) (f : Feature) (c : Container)
      (acc : List EvaluatorItem)
      → get_feature_by_identifier sscanf rows (getstring (feature i) "") zero_container
        ≡ some (some f, c)
      → add_evaluators getstring getint sscanf rows (suc n) i acc
        ≡ add_evaluators getstring getint sscanf rows n
            (i + 1)
            (slist_append acc (record { feature = f; evaluator_container = c }))
  unfolding add_evaluators
  add_some rows n i f c acc e = cc

  -- Where the keys are resolved to `os`, the loop has no fault and collects the features found, in
  -- the order of the keys, each with its container, behind those that are there: a key that is not
  -- found leaves no gap.
  pub add_evaluators_lem :
      (rows : List (Option (Row Feature))) (i : ℕ) (os : List (Option Feature × Container))
      (acc : List EvaluatorItem)
      → Resolves rows i os
      → add_evaluators getstring getint sscanf rows (length os) i acc ≡ some (acc ++ found os)
  unfolding add_evaluators Resolves
  add_evaluators_lem rows i [] acc h = ap some (sym (append_nil acc))
  add_evaluators_lem rows i ((none, c) ∷ os) acc (e, h) =
      add_none rows (length os) i c acc e ∙ add_evaluators_lem rows (i + 1) os acc h
  add_evaluators_lem rows i ((some f, c) ∷ os) acc (e, h) =
      let x : EvaluatorItem = record { feature = f; evaluator_container = c } in
      add_some rows (length os) i f c acc e
      ∙ add_evaluators_lem rows (i + 1) os (slist_append acc x) h
      ∙ ap some (ap (λ t. t ++ found os) (slist_append_lem acc x) ∙ append_step acc x (found os))

  prototype_none :
      (rows : List (Option (Row Prototype))) (n i : ℕ) (acc : List Prototype)
      → find_named prototype_identifier (getstring (groupcounter i) "") (visit_all rows) ≡ some none
      → add_prototypes getstring getint sscanf rows (suc n) i acc
        ≡ add_prototypes getstring getint sscanf rows n (i + 1) acc
  unfolding add_prototypes
  prototype_none rows n i acc e = cc

  prototype_some :
      (rows : List (Option (Row Prototype))) (n i : ℕ) (p : Prototype) (acc : List Prototype)
      → find_named prototype_identifier (getstring (groupcounter i) "") (visit_all rows)
        ≡ some (some p)
      → add_prototypes getstring getint sscanf rows (suc n) i acc
        ≡ add_prototypes getstring getint sscanf rows n (i + 1) (slist_append acc p)
  unfolding add_prototypes
  prototype_some rows n i p acc e = cc

  -- The loop over the group counters collects the prototypes found, likewise.
  pub add_prototypes_lem :
      (rows : List (Option (Row Prototype))) (i : ℕ) (os : List (Option Prototype))
      (acc : List Prototype)
      → Finds rows i os
      → add_prototypes getstring getint sscanf rows (length os) i acc
        ≡ some (acc ++ found_prototypes os)
  unfolding add_prototypes Finds
  add_prototypes_lem rows i [] acc h = ap some (sym (append_nil acc))
  add_prototypes_lem rows i (none ∷ os) acc (e, h) =
      prototype_none rows (length os) i acc e ∙ add_prototypes_lem rows (i + 1) os acc h
  add_prototypes_lem rows i (some p ∷ os) acc (e, h) =
      prototype_some rows (length os) i p acc e
      ∙ add_prototypes_lem rows (i + 1) os (slist_append acc p) h
      ∙ ap some (
          ap (λ t. t ++ found_prototypes os) (slist_append_lem acc p)
          ∙ append_step acc p (found_prototypes os))

  -- The listener of a section.
  pub record Configured (t : Tables) (os : List (Option Feature × Container))
      (ps : List (Option Prototype)) : Type 0 where
    pub listener : Listener
    pub tables : Tables
    pub runs : listener_from_conf getstring getint sscanf t ≡ some (listener, tables)
    pub evaluators : listener.evaluators ≡ found os
    pub feature_num : listener.feature_num ≡ length os
    pub prototypes : listener.groupcounter_prototypes ≡ found_prototypes ps
    pub groupcounter_num : listener.groupcounter_num ≡ length ps
    pub ids : listener.mapped_var_ids ≡ map_ids getstring getint sscanf max_mapped_vars 0
    pub features : tables.features ≡ t.features
    pub full : AllItems tables.mapped_vars

  -- The four texts of a section fit the arrays of a listener, with the byte that ends them.
  pub record Fits : Type 0 where
    pub device : len (getstring Key.device "veth0") < 255
    pub output : len (getstring Key.output "output.csv") < 255
    pub pcap_filter : len (getstring Key.pcap_filter "") < 1024
    pub aggregation_path : len (getstring Key.aggregation_path "aggregation.csv") < 255

  strcpy_fits : (size : ℕ) (s : String) → len s < size → strcpy size s ≡ some s
  unfolding strcpy
  strcpy_fits size s h = ground arith

  made :
      (es : List EvaluatorItem) (ids : List ℕ) (ps : List Prototype)
      → Fits
      → make_listener getstring getint sscanf es ids ps
        ≡ some (
            filled_listener getstring getint sscanf
              (getstring Key.device "veth0")
              (getstring Key.output "output.csv")
              (getstring Key.pcap_filter "")
              (getstring Key.aggregation_path "aggregation.csv")
              es
              ids
              ps)
  unfolding make_listener
  made es ids ps h =
      let a = strcpy_fits 255 (getstring Key.device "veth0") h.device in
      let b = strcpy_fits 255 (getstring Key.output "output.csv") h.output in
      let c = strcpy_fits 1024 (getstring Key.pcap_filter "") h.pcap_filter in
      let d =
        strcpy_fits 255 (getstring Key.aggregation_path "aggregation.csv") h.aggregation_path in
      cc

  configured :
      (t : Tables) (fs gs : ℕ) (es : List EvaluatorItem) (ids : List ℕ)
      (vars : List (Option (Row MappedVar))) (ps : List Prototype) (l : Listener)
      → to_uint32 (getint Key.feature_num (pos 0)) ≡ fs
      → to_uint32 (getint Key.groupcounter_num (pos 0)) ≡ gs
      → add_evaluators getstring getint sscanf t.features fs 0 [] ≡ some es
      → read_mapped_ids getstring getint sscanf max_mapped_vars 0 t.mapped_vars ≡ some (ids, vars)
      → add_prototypes getstring getint sscanf t.prototypes gs 0 [] ≡ some ps
      → make_listener getstring getint sscanf es ids ps ≡ some l
      → listener_from_conf getstring getint sscanf t ≡ some (l, record t { mapped_vars = vars })
  unfolding listener_from_conf
  configured t fs gs es ids vars ps l f g e r q m = cc

  -- A section whose texts fit the listener's arrays, whose feature keys and group counter keys, as many
  -- as it says, are looked up without a fault, with the outcomes `os` and `ps`, and a table of mapped
  -- variables of which each row has an item: the section gives a listener without a fault, whatever
  -- its mapped variables are. Its evaluators and prototypes are those found, in order, but its numbers
  -- count the keys that are not found too.
  pub listener_from_conf_lem :
      (t : Tables) (os : List (Option Feature × Container)) (ps : List (Option Prototype))
      → Fits
      → AllItems t.mapped_vars
      → to_uint32 (getint Key.feature_num (pos 0)) ≡ length os
      → to_uint32 (getint Key.groupcounter_num (pos 0)) ≡ length ps
      → Resolves t.features 0 os
      → Finds t.prototypes 0 ps
      → Configured t os ps
  unfolding filled_listener
  listener_from_conf_lem t os ps fits h n k r f =
      let (vars, e, full) =
        read_mapped_ids_lem getstring getint sscanf max_mapped_vars 0 t.mapped_vars h in
      let ids = map_ids getstring getint sscanf max_mapped_vars 0 in
      let l =
        filled_listener getstring getint sscanf (getstring Key.device "veth0")
          (getstring Key.output "output.csv") (getstring Key.pcap_filter "")
          (getstring Key.aggregation_path "aggregation.csv") (found os) ids (found_prototypes ps) in
      record {
        listener = l;
        tables = record t { mapped_vars = vars };
        runs =
            configured t (length os) (length ps) (found os) ids vars (found_prototypes ps) l n k
              (add_evaluators_lem t.features 0 os [] r) e
              (add_prototypes_lem t.prototypes 0 ps [] f)
              (made (found os) ids (found_prototypes ps) fits);
        evaluators = refl;
        feature_num = n;
        prototypes = refl;
        groupcounter_num = k;
        ids = refl;
        features = refl;
        full = full;
      }
