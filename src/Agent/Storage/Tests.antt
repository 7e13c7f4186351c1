-- ===== src/Agent/Storage/Tests.antt =====
-- Runs of the pool's model at concrete jobs; the hash is the content itself.
use hadcd_agent.Base.{
  ◌++◌, ℕ, zero, suc, ◌≡◌, refl, inl, inr, true, false, none, some, List, [], ◌∷◌,
}
use hadcd_agent.Base.Text.{Text, codes}
use hadcd_agent.Agent.Storage.{
  Bytes, File, staging_of, content_of, unlink, write, Sweep, raises, reply, Chunk, receive, Job,
  total_of, is_peer, requests, World, acked, failed, fetch_from_peer, relay, continue_from,
  service_transfer_job, transfers, collection, passes,
}
use hadcd_agent.Agent.Storage.Transfer.{IsSound}
use hadcd_agent.Agent.Storage.Reports.{IsReported, service-IsReported, passes-IsSound}
use hadcd_agent.Agent.Storage.Fallback.{IsStored, serving, joined, relay_stores}
use hadcd_agent.Agent.Storage.Collection.{swept_transfer_fails}
use hadcd_agent.Agent.Storage.Server.{
  serve, requested, behind, all_hex, is_hex, IsTaken, served_is_accepted,
}

abbrev plain : Bytes → Text
plain b = b

abbrev part : ℕ → Bytes
part zero = 7 ∷ []
part (suc n) = 8 ∷ []

-- Two chunks, and a peer whose stream breaks.
abbrev two_parts : Job
two_parts = record { sha256 = 7 ∷ 8 ∷ []; chunks_total = some 2; source_ip = some (1 ∷ []) }

abbrev broken : List Chunk
broken =
    record { meanwhile = none; answer = reply 200 (7 ∷ []) }
    ∷ record { meanwhile = none; answer = raises }
    ∷ []

abbrev world : World
world = record {
  is_made = true;
  own_ip = none;
  peer_status = some 200;
  pieces = broken;
  chunk = serving part;
  is_peer_acked = true;
  is_acked = true;
}

abbrev old : List File
old = record { name = 5 ∷ []; content = 5 ∷ [] } ∷ []

abbrev old-IsSound : IsSound plain old
old-IsSound = (inr refl, tt)

abbrev eager : Sweep
eager = record { active = []; removable = λ n. true }

fetched : service_transfer_job plain two_parts world old ≡ (
  record { name = 7 ∷ 8 ∷ []; content = 7 ∷ 8 ∷ [] } ∷ old,
  acked (record { name = 7 ∷ 8 ∷ []; content = 7 ∷ 8 ∷ [] } ∷ old) ∷ [],
)
unfolding service_transfer_job is_peer content_of fetch_from_peer continue_from relay staging_of
    receive write unlink requests total_of
fetched = refl

service-IsReported_example :
    IsReported plain (7 ∷ 8 ∷ []) (service_transfer_job plain two_parts world old)
service-IsReported_example = service-IsReported plain two_parts world old old-IsSound

relay_stores_example : IsStored plain (7 ∷ 8 ∷ []) (service_transfer_job plain two_parts world old)
unfolding content_of total_of
relay_stores_example =
    relay_stores plain two_parts world part old refl old-IsSound refl refl refl refl

passes-IsSound_example : IsSound plain (
    passes plain
      (transfers (some 200) (some (false, two_parts, world) ∷ [])
        ∷ collection (some 200) eager
        ∷ [])
      old)
passes-IsSound_example =
    passes-IsSound plain
      (transfers (some 200) (some (false, two_parts, world) ∷ [])
        ∷ collection (some 200) eager
        ∷ [])
      old old-IsSound

abbrev swept_chunk : ℕ → Chunk
swept_chunk seq = record { meanwhile = some eager; answer = reply 200 (part seq) }

abbrev swept_world : World
swept_world = record {
  is_made = true;
  own_ip = none;
  peer_status = none;
  pieces = [];
  chunk = swept_chunk;
  is_peer_acked = true;
  is_acked = true;
}

abbrev no_peer : Job
no_peer = record { sha256 = 7 ∷ 8 ∷ []; chunks_total = some 2; source_ip = none }

swept_transfer_fails_example :
    (left : List File) × ((service_transfer_job plain no_peer swept_world old).1 ≡ failed left ∷ [])
unfolding content_of total_of is_peer requests
swept_transfer_fails_example =
    swept_transfer_fails plain no_peer swept_world old refl refl refl (inl (eager, refl, refl))

-- A file whose name, and content, is "a" 64 times.
abbrev repeated : ℕ → Bytes
repeated zero = []
repeated (suc n) = 97 ∷ repeated n

abbrev whole_file : ℕ → Bytes
whole_file n = repeated 64

abbrev theirs : List File
theirs = record { name = repeated 64; content = repeated 64 } ∷ []

served_is_accepted_example :
    IsTaken
      (repeated 64)
      (joined whole_file 1 0)
      (fetch_from_peer plain (repeated 64) (some 200) (requests (serving whole_file) 1 0) old)
unfolding serve requested behind all_hex is_hex content_of
served_is_accepted_example =
    served_is_accepted plain (codes "/pool/" ++ repeated 64) (repeated 64) true theirs old
      whole_file 1 (inr refl, tt) refl
