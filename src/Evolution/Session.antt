-- ===== src/Evolution/Session.antt =====
-- The actions of the session and the permitted change of the database.
use autodeploy_platform.Prelude.{sym, subst, ℕ, ◌≡◌, refl, some, List, [], ◌∷◌, find, modify}
use autodeploy_platform.Models.Rows.{Build, PlatformDeployment, DeploymentEvent, Db}
use autodeploy_platform.Session.{
  Environment, World, end_transaction, found, write, now_utc, commit, rollback, update_deployment,
  update_build, add_event,
}
use autodeploy_platform.Session.Keeps.{Keeps}
use autodeploy_platform.Evolution.Rows.{Evolves, Evolves-refl, BuildEvolves, BuildEvolves-refl}
use autodeploy_platform.Evolution.Database.{
  DbEvolves, modify-Rows, Rows-refl, DbEvolves-refl, DbEvolves-trans,
}

-- What the other processes commit is a permitted change too.
abbrev pub PeersEvolve : List (Db → Db) → Type 0
PeersEvolve [] = Unit
PeersEvolve (peer ∷ peers) = ((db : Db) → DbEvolves db (peer db)) × PeersEvolve peers

-- The committed database, and the session's view, are permitted changes of `start`.
pub record From (start : Db) (w : World) : Type 0 where
  pub saved : DbEvolves start w.saved
  pub work : DbEvolves start w.work
  pub peers : PeersEvolve w.peers

-- A session that has written nothing.
pub fresh-From : (w : World) → w.work ≡ w.saved → PeersEvolve w.peers → From w.saved w
fresh-From w fresh peers = record {
  saved = DbEvolves-refl w.saved;
  work = subst (DbEvolves w.saved) (sym fresh) (DbEvolves-refl w.saved);
  peers = peers;
}

module _ {start : Db} where
  pub write-Keeps : (f : Db → Db) → ((db : Db) → DbEvolves db (f db)) → Keeps (From start) (write f)
  unfolding write
  write-Keeps f e = record {
    after = λ w h. record {
      saved = h.saved;
      work = DbEvolves-trans start w.work (f w.work) h.work (e w.work);
      peers = h.peers;
    };
  }

  pub now_utc-Keeps : (env : Environment) → Keeps (From start) (now_utc env)
  unfolding now_utc
  now_utc-Keeps env = record {
    after = λ w h. record { saved = h.saved; work = h.work; peers = h.peers };
  }

  end_transaction-From :
      (db : Db) (reads : ℕ) (peers : List (Db → Db))
      → DbEvolves start db
      → PeersEvolve peers
      → From start (end_transaction db reads peers)
  unfolding end_transaction
  end_transaction-From db reads [] h p = record { saved = h; work = h; peers = tt }
  end_transaction-From db reads (peer ∷ peers) h p =
      let e = DbEvolves-trans start db (peer db) h (p.0 db) in
      record { saved = e; work = e; peers = p.1 }

  pub commit-Keeps : Keeps (From start) commit
  unfolding commit
  commit-Keeps = record {
    after = λ w h. end_transaction-From w.work w.reads w.peers h.work h.peers;
  }

  pub rollback-Keeps : Keeps (From start) rollback
  unfolding rollback
  rollback-Keeps = record {
    after = λ w h. end_transaction-From w.saved w.reads w.peers h.saved h.peers;
  }

  pub add_event-Keeps : (event : DeploymentEvent) → Keeps (From start) (add_event event)
  unfolding add_event
  add_event-Keeps event = write-Keeps _ (λ db. record {
    deployments = Rows-refl Evolves Evolves-refl db.deployments;
    builds = Rows-refl BuildEvolves BuildEvolves-refl db.builds;
    commands = (DbEvolves-refl db).commands;
    events = (event ∷ [], refl);
  })

-- A write to one row is permitted where it is permitted for the row.
pub deployments-DbEvolves :
    (id : ℕ) (f : PlatformDeployment → PlatformDeployment) (db : Db)
    → ((d : PlatformDeployment) → find id db.deployments ≡ some d → Evolves d (f d))
    → DbEvolves db (record db { deployments = modify id f db.deployments })
deployments-DbEvolves id f db e = record {
  deployments = modify-Rows Evolves Evolves-refl id f db.deployments e;
  builds = Rows-refl BuildEvolves BuildEvolves-refl db.builds;
  commands = (DbEvolves-refl db).commands;
  events = (DbEvolves-refl db).events;
}

pub builds-DbEvolves :
    (id : ℕ) (f : Build → Build) (db : Db)
    → ((b : Build) → find id db.builds ≡ some b → BuildEvolves b (f b))
    → DbEvolves db (record db { builds = modify id f db.builds })
builds-DbEvolves id f db e = record {
  deployments = Rows-refl Evolves Evolves-refl db.deployments;
  builds = modify-Rows BuildEvolves BuildEvolves-refl id f db.builds e;
  commands = (DbEvolves-refl db).commands;
  events = (DbEvolves-refl db).events;
}

module _ {start : Db} (id : ℕ) where
  pub update_deployment-Keeps :
      (f : PlatformDeployment → PlatformDeployment)
      → ((d : PlatformDeployment) → Evolves d (f d))
      → Keeps (From start) (update_deployment id f)
  unfolding update_deployment
  update_deployment-Keeps f e = write-Keeps _ (λ db. deployments-DbEvolves id f db (λ d _. e d))

  pub update_build-Keeps :
      (f : Build → Build)
      → ((b : Build) → BuildEvolves b (f b))
      → Keeps (From start) (update_build id f)
  unfolding update_build
  update_build-Keeps f e = write-Keeps _ (λ db. builds-DbEvolves id f db (λ b _. e b))

-- A row that was read is the row that is written.
found-DbEvolves :
    (id : ℕ) (f : PlatformDeployment → PlatformDeployment) (db : Db) (d : PlatformDeployment)
    → find id db.deployments ≡ some d
    → Evolves d (f d)
    → DbEvolves db (record db { deployments = modify id f db.deployments })
found-DbEvolves id f db d found e =
    deployments-DbEvolves id f db (λ r same. subst (λ x. Evolves x (f x)) (cc) e)

found-builds-DbEvolves :
    (id : ℕ) (f : Build → Build) (db : Db) (b : Build)
    → find id db.builds ≡ some b
    → BuildEvolves b (f b)
    → DbEvolves db (record db { builds = modify id f db.builds })
found-builds-DbEvolves id f db b found e =
    builds-DbEvolves id f db (λ r same. subst (λ x. BuildEvolves x (f x)) (cc) e)

module _ {start : Db} where
  pub work-From :
      (w : World) (db : Db)
      → From start w
      → DbEvolves w.work db
      → From start (record w { work = db })
  work-From w db h e = record {
    saved = h.saved;
    work = DbEvolves-trans start w.work db h.work e;
    peers = h.peers;
  }

  pub update_found-From :
      (id : ℕ) (f : PlatformDeployment → PlatformDeployment) (w : World) (d : PlatformDeployment)
      → find id w.work.deployments ≡ some d
      → Evolves d (f d)
      → From start w
      → From start (update_deployment id f w).1
  unfolding update_deployment write
  update_found-From id f w d found e h = work-From w _ h (found-DbEvolves id f w.work d found e)

  pub update_found_build-From :
      (id : ℕ) (f : Build → Build) (w : World) (b : Build)
      → find id w.work.builds ≡ some b
      → BuildEvolves b (f b)
      → From start w
      → From start (update_build id f w).1
  unfolding update_build write
  update_found_build-From id f w b found e h =
      work-From w _ h (found-builds-DbEvolves id f w.work b found e)
