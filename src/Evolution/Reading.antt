-- ===== src/Evolution/Reading.antt =====
-- What follows a reading of the database and the permitted change of the database.
use autodeploy_platform.Prelude.{ℕ, String, ◌≡◌, refl, Option, none, some, find}
use autodeploy_platform.Models.Rows.{Build, PlatformDeployment, Db}
use autodeploy_platform.Session.{World, Action, ◌>>=◌, view, found, the_deployment, the_build}
use autodeploy_platform.Session.Keeps.{Keeps}
use autodeploy_platform.Evolution.Session.{From}

module _ {ℓ} {start : Db} {B : Type ℓ} where
  -- What follows a reading of the database may use what was read.
  pub view-then :
      (k : Db → Action B)
      → ((w : World) → From start w → From start (k w.work w).1)
      → Keeps (From start) (view >>= k)
  unfolding ◌>>=◌ view
  view-then k h = record { after = h }

  after_found :
      (error : String) (k : PlatformDeployment → Action B) (o : Option PlatformDeployment)
      (w : World)
      → From start w
      → ((d : PlatformDeployment) → o ≡ some d → From start (k d w).1)
      → From start ((found error o >>= k) w).1
  unfolding ◌>>=◌ found
  after_found error k none w h e = h
  after_found error k (some d) w h e = e d refl

  pub the_deployment-then :
      (id : ℕ) (k : PlatformDeployment → Action B)
      → ((w : World) (d : PlatformDeployment)
          → find id w.work.deployments ≡ some d
          → From start w
          → From start (k d w).1)
      → Keeps (From start) (the_deployment id >>= k)
  unfolding ◌>>=◌ the_deployment view
  the_deployment-then id k h = record {
    after = λ w f.
        after_found "ObjectDeletedError" k (find id w.work.deployments) w f (λ d e. h w d e f);
  }

  after_found_build :
      (error : String) (k : Build → Action B) (o : Option Build) (w : World)
      → From start w
      → ((b : Build) → o ≡ some b → From start (k b w).1)
      → From start ((found error o >>= k) w).1
  unfolding ◌>>=◌ found
  after_found_build error k none w h e = h
  after_found_build error k (some b) w h e = e b refl

  pub the_build-then :
      (id : ℕ) (k : Build → Action B)
      → ((w : World) (b : Build)
          → find id w.work.builds ≡ some b
          → From start w
          → From start (k b w).1)
      → Keeps (From start) (the_build id >>= k)
  unfolding ◌>>=◌ the_build view
  the_build-then id k h = record {
    after =
        λ w f. after_found_build "AttributeError" k (find id w.work.builds) w f (λ b e. h w b e f);
  }
