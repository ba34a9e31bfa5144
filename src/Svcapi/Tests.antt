-- ===== src/Svcapi/Tests.antt =====
-- The server of the sample through its interface.
use h_go.Base.{String, ◌≡◌, refl, none, some, List, [], ◌∷◌, contains, str_eq, ◌||◌, get, put, keys}
use h_go.Text.Trim.{trim_space}
use h_go.Storage.Sample.{sql, redis}
use h_go.Group.{new_group_manager, create, join}
use h_go.Server.{register_online, unregister_online, list_online_users}
use h_go.Session.Sample.{outside, server}
use h_go.Svcapi.{group_manager_api, server_api}
use h_go.Svcapi.Contract.{members-create_join, group_manager_api-IsGroupManager}

come_and_gone :
    let api = server_api sql redis outside in
    let both = api.register_online "bob" 2 "b:1" (api.register_online "ann" 1 "a:1" server) in
    api.list_online_users (api.unregister_online "ann" both) ≡ ("bob", "b:1") ∷ []
unfolding register_online unregister_online list_online_users put h_go.Base.remove
come_and_gone = refl

made : (group_manager_api.create new_group_manager "go" "ann").1 ≡ none
unfolding create trim_space get
made = refl

came :
    (group_manager_api.join (group_manager_api.create new_group_manager "go" "ann").0 "go" "bob").1
    ≡ none
unfolding create join trim_space get put
came = refl

-- Bob is among the two.
two_members :
    let api = group_manager_api in
    let joined = (api.join (api.create new_group_manager "go" "ann").0 "go" "bob").0 in
    contains "bob" (api.members joined "go")
    ≡ (str_eq (trim_space "ann") "bob" || str_eq (trim_space "bob") "bob")
two_members =
    members-create_join group_manager_api group_manager_api-IsGroupManager new_group_manager "go"
      "ann" "bob" "bob" made came
