-- ===== src/Storage/MapTable.antt =====
-- A table that is a function from its keys: the interface of storage/kvtable.rs can be met.
use maestro_dogecoin_indexer.Prelude.{Bool, Option, none, some, refl, if◌then◌else◌}
use maestro_dogecoin_indexer.Storage.{Table}

abbrev pub table : (K V : Type 0) (same : K → K → Bool) → Table K V same
table K V same = record {
  Contents = K → Option V;
  get_by_key = λ t k. t k;
  stage_upsert = λ t k v j. if same k j then some v else t j;
  get_by_key-stage_upsert = λ t k j v. refl;
  stage_delete = λ t k j. if same k j then none else t j;
  get_by_key-stage_delete = λ t k j. refl;
}
