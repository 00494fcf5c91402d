-- ===== src/Server/Routing/Init.antt =====
-- `RegisterRouters` of pkg/services/api/server/manager.go, and `Init` after it.
use framingo.Prelude.{List, [], ◌∷◌, Option, Outcome, ok, err, panics}
use framingo.Prelude.Dicts.{Dict}
use framingo.Server.{Text, HandlerGroup}
use framingo.Server.Routing.{ServerError, Server, Manager, Router}
use framingo.Server.Routing.Calls.{install_router, register_routers, rebuild}

module _ {F W M : Type 0} (unmarshal : Text → Option (Option HandlerGroup)) where
  abbrev go_on :
      List (Router F W)
      → Manager F W M × Outcome ServerError (Unit {0})
      → Manager F W M × Outcome ServerError (Unit {0})
  go_on routers (p, ok _) = register_routers unmarshal p routers
  go_on routers (p, err e) = (p, err e)
  go_on routers (p, panics) = (p, panics)

  abbrev begin :
      List (Router F W)
      → Manager F W M × Outcome ServerError HandlerGroup
      → Manager F W M × Outcome ServerError (Unit {0})
  begin routers (n, ok g) = go_on routers (install_router n g)
  begin routers (n, err e) = (n, err e)
  begin routers (n, panics) = (n, panics)

module _ {F W M : Type 0} where
  abbrev rebuild_all : Manager F W M → Dict Text (Server F W M) → Dict Text (Server F W M)
  rebuild_all m [] = []
  rebuild_all m (e ∷ d) = (e.0, (rebuild m e.1).0) ∷ rebuild_all m d
