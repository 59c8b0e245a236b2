-- ===== src/Tests/Http.antt =====
-- A route with two handlers, of which the first throws, and requests for it.
use sm.Base.{true, none, some, List, [], ◌∷◌}
use sm.Base.Map.{nat_eq}
use sm.Http.Apps.{HttpHandler, begins, HttpEvent, gets_data}

abbrev echo_route : List HttpHandler
echo_route = (λ msg token. none) ∷ (λ msg token. some msg) ∷ []

-- A request of the response 5 and one of the response 6, with data.
abbrev two_dealt : List HttpEvent
two_dealt =
    begins 5 echo_route [] []
    ∷ begins 6 echo_route [] []
    ∷ gets_data 5 (1 ∷ []) true
    ∷ gets_data 6 (2 ∷ []) true
    ∷ []
