-- ===== src/Database/Replicas.antt =====
-- The replicas that src/database/data-source.ts reads from its setting.
use Prim.Native.String
use Prim.Native.String.append
use activity_tracker_api.Base.{ℕ, ◌≡◌, ◌∙◌, refl, ap, String, true, some, List, [], ◌∷◌, map, All}
use activity_tracker_api.Base.Strings.{
  split, split-joined, split-whole, Lacks, lacks-Lacks, append-Lacks,
}
use activity_tracker_api.Base.Numbers.{whole, decimal, trim}
use activity_tracker_api.Base.Numbers.RoundTrip.{parse_any_int-decimal, Lacks-decimal}
use activity_tracker_api.Http.{is_truthy}
use activity_tracker_api.Http.Truthy.{append-is_truthy, decimal-is_truthy}
use activity_tracker_api.Database.{
  DatabaseEnv, ReplicaConfig, config_at, replica_config, replicas_of, replica_configs,
}

-- A host and its port, as they stand in the setting, and several of them.
abbrev pub printed : String × ℕ → String
printed (host, port) = String.◌++◌ host (String.◌++◌ ":" (decimal port))

abbrev pub joined : String × ℕ → List (String × ℕ) → String
joined first [] = printed first
joined first (second ∷ rest) =
    let more = joined second rest in String.◌++◌ (printed first) (String.◌++◌ "," more)

-- A name without separators, and without white space at its ends.
pub record IsHost (replica : String × ℕ) : Type 0 where
  pub no_colon : Lacks b':' replica.0
  pub no_comma : Lacks b',' replica.0
  pub trimmed : trim replica.0 ≡ replica.0

printed-no_comma : (r : String × ℕ) → IsHost r → Lacks b',' (printed r)
printed-no_comma r h =
    append-Lacks b',' r.0 _ h.no_comma (
      append-Lacks b',' ":" (decimal r.1) (lacks-Lacks b',' ":" refl) (Lacks-decimal b',' r.1 refl))

module _ (env : DatabaseEnv) where
  abbrev pub config_of : String × ℕ → ReplicaConfig
  config_of (host, port) = config_at env host (whole port)

  read_one : (r : String × ℕ) → IsHost r → replica_config env (split b':' (printed r)) ≡ config_of r
  read_one r h =
      ap (replica_config env) (
        split-joined b':' ":" r.0 (decimal r.1) refl h.no_colon
        ∙ ap (λ l. r.0 ∷ l) (split-whole b':' (decimal r.1) (Lacks-decimal b':' r.1 refl)))
      ∙ rw (decimal-is_truthy r.1, replica_config, h.trimmed, parse_any_int-decimal r.1) refl

  read_each :
      (first : String × ℕ) (rest : List (String × ℕ))
      → IsHost first
      → All IsHost rest
      → map (λ replica. replica_config env (split b':' replica)) (split b',' (joined first rest))
        ≡ map config_of (first ∷ rest)
  read_each first [] h hs =
      ap (map (λ replica. replica_config env (split b':' replica)))
        (split-whole b',' (printed first) (printed-no_comma first h))
      ∙ ap (λ c. c ∷ []) (read_one first h)
  read_each first (second ∷ rest) h (h', hs) =
      ap (map (λ replica. replica_config env (split b':' replica)))
        (split-joined b',' "," (printed first) (joined second rest) refl (printed-no_comma first h))
      ∙ ap
          (λ c.
            c
            ∷ map (λ replica. replica_config env (split b':' replica))
                (split b',' (joined second rest)))
          (read_one first h)
      ∙ ap (λ l. config_of first ∷ l) (read_each second rest h' hs)

  printed-is_truthy : (r : String × ℕ) → is_truthy (some (printed r)) ≡ true
  printed-is_truthy (host, port) =
      ap (λ u. is_truthy (some (String.◌++◌ host u)))
        (append.cons ":" "" (decimal port) ∙ ap (String.◌∷◌ ":") (append.nil (decimal port)))
      ∙ append-is_truthy host ":" (decimal port)

  joined-is_truthy :
      (first : String × ℕ) (rest : List (String × ℕ)) → is_truthy (some (joined first rest)) ≡ true
  joined-is_truthy first [] = printed-is_truthy first
  joined-is_truthy first (second ∷ rest) =
      ap (λ u. is_truthy (some (String.◌++◌ (printed first) u)))
        (append.cons "," "" (joined second rest)
          ∙ ap (String.◌∷◌ ",") (append.nil (joined second rest)))
      ∙ append-is_truthy (printed first) "," (joined second rest)

  -- Replicas that are written as `host:port`, separated by commas, are read as these hosts and ports,
  -- in order, with the primary's user, password and database.
  pub replica_configs-joined :
      (first : String × ℕ) (rest : List (String × ℕ))
      → IsHost first
      → All IsHost rest
      → env.database_read_replicas ≡ some (joined first rest)
      → replica_configs env ≡ map config_of (first ∷ rest)
  unfolding replica_configs
  replica_configs-joined first rest h hs written =
      ap (replicas_of env) written
      ∙ rw (joined-is_truthy first rest, replicas_of) (read_each first rest h hs)
