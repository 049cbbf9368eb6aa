-- ===== src/Detect/TableTests.antt =====
-- Two speakers that announce themselves, in both orders, to a server with a table that is never full.
use castserver.Base.{◌+◌}
use mathlib.Core.List.Perm
use castserver.Base.{ℕ, suc, ◌≢◌, Bool, false, not, ◌||◌, List, [], ◌∷◌, ◌==◌, if◌then◌else◌}
use castserver.Env.{Env}
use castserver.World.{write_mem}
use castserver.Detect.Refine.{Message}
use castserver.Sample.{system, from, is_known, online_speaker}

abbrev keeping : Env (List ℕ)
keeping = record system {
  find_speaker_by_id = λ st id. if is_known id st.table then suc id else 0;
  add_speaker = λ st id line channel. (
    suc id,
    write_mem (record st { table = id ∷ st.table }) (suc id) (online_speaker id channel),
  );
}

abbrev announcement : ℕ → Message
announcement id = record {
  src = from (100 + id);
  packet = id ∷ (100 + id) ∷ 12 ∷ 12 ∷ 4100 ∷ [];
  len = 5;
}

abbrev arrivals : List Message
arrivals = announcement 8 ∷ announcement 9 ∷ []
