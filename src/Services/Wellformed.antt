-- ===== src/Services/Wellformed.antt =====
-- What every manager that the program builds satisfies: the three dicts have the same keys, in the
-- same order, and no key twice.
use yasin_core.Prelude.{◌≤◌, String, ◌≡◌}
use yasin_core.Prelude.Counting.{count}
use yasin_core.Dict
use yasin_core.Services.{Manager}

pub record IsWellformed {Service : Type 0} (m : Manager Service) : Type 0 where
  pub metadata_keys : Dict.keys m.metadata ≡ Dict.keys m.services
  pub states_keys : Dict.keys m.states ≡ Dict.keys m.services
  pub distinct : (name : String) → count name (Dict.keys m.services) ≤ 1
