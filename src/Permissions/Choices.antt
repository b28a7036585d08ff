-- ===== src/Permissions/Choices.antt =====
-- The permissions of taiga/permissions/choices.py, and the three lists of them.
use taiga_back_schedule_mana.Base.{ℕ, Bool, List, [], ◌∷◌, any_of, ◌==◌}

pub data Permission : Type 0 where
  view_project : Permission
  view_milestones : Permission
  add_milestone : Permission
  modify_milestone : Permission
  delete_milestone : Permission
  view_epics : Permission
  add_epic : Permission
  modify_epic : Permission
  comment_epic : Permission
  delete_epic : Permission
  view_us : Permission
  add_us : Permission
  modify_us : Permission
  comment_us : Permission
  delete_us : Permission
  view_tasks : Permission
  add_task : Permission
  modify_task : Permission
  comment_task : Permission
  delete_task : Permission
  view_issues : Permission
  add_issue : Permission
  modify_issue : Permission
  comment_issue : Permission
  delete_issue : Permission
  view_schedule : Permission
  view_gantt : Permission
  modify_schedule_links : Permission
  modify_schedule_dates : Permission
  modify_schedule_color : Permission
  modify_gantt_list_order : Permission
  view_wiki_pages : Permission
  add_wiki_page : Permission
  modify_wiki_page : Permission
  comment_wiki_page : Permission
  delete_wiki_page : Permission
  view_wiki_links : Permission
  add_wiki_link : Permission
  modify_wiki_link : Permission
  delete_wiki_link : Permission
  modify_project : Permission
  delete_project : Permission
  add_member : Permission
  remove_member : Permission
  admin_project_values : Permission
  admin_roles : Permission

unfoldable pub code : Permission → ℕ
code view_project = 0
code view_milestones = 1
code add_milestone = 2
code modify_milestone = 3
code delete_milestone = 4
code view_epics = 5
code add_epic = 6
code modify_epic = 7
code comment_epic = 8
code delete_epic = 9
code view_us = 10
code add_us = 11
code modify_us = 12
code comment_us = 13
code delete_us = 14
code view_tasks = 15
code add_task = 16
code modify_task = 17
code comment_task = 18
code delete_task = 19
code view_issues = 20
code add_issue = 21
code modify_issue = 22
code comment_issue = 23
code delete_issue = 24
code view_schedule = 25
code view_gantt = 26
code modify_schedule_links = 27
code modify_schedule_dates = 28
code modify_schedule_color = 29
code modify_gantt_list_order = 30
code view_wiki_pages = 31
code add_wiki_page = 32
code modify_wiki_page = 33
code comment_wiki_page = 34
code delete_wiki_page = 35
code view_wiki_links = 36
code add_wiki_link = 37
code modify_wiki_link = 38
code delete_wiki_link = 39
code modify_project = 40
code delete_project = 41
code add_member = 42
code remove_member = 43
code admin_project_values = 44
code admin_roles = 45

unfoldable pub same_permission : Permission → Permission → Bool
same_permission p q = code p == code q

-- `perm in permissions`
unfoldable pub has : Permission → List Permission → Bool
has p ps = any_of (same_permission p) ps

unfoldable pub anon_permissions : List Permission
anon_permissions =
    view_project ∷ view_milestones ∷ view_epics ∷ view_us ∷ view_tasks ∷ view_issues ∷ view_schedule
    ∷ view_gantt ∷ view_wiki_pages ∷ view_wiki_links ∷ []

unfoldable pub members_permissions : List Permission
members_permissions =
    view_project ∷ view_milestones ∷ add_milestone ∷ modify_milestone ∷ delete_milestone
    ∷ view_epics ∷ add_epic ∷ modify_epic ∷ comment_epic ∷ delete_epic ∷ view_us ∷ add_us
    ∷ modify_us ∷ comment_us ∷ delete_us ∷ view_tasks ∷ add_task ∷ modify_task ∷ comment_task
    ∷ delete_task ∷ view_issues ∷ add_issue ∷ modify_issue ∷ comment_issue ∷ delete_issue
    ∷ view_schedule ∷ view_gantt ∷ modify_schedule_links ∷ modify_schedule_dates
    ∷ modify_schedule_color ∷ modify_gantt_list_order ∷ view_wiki_pages ∷ add_wiki_page
    ∷ modify_wiki_page ∷ comment_wiki_page ∷ delete_wiki_page ∷ view_wiki_links ∷ add_wiki_link
    ∷ modify_wiki_link ∷ delete_wiki_link ∷ []

unfoldable pub admins_permissions : List Permission
admins_permissions =
    modify_project ∷ delete_project ∷ add_member ∷ remove_member ∷ admin_project_values
    ∷ admin_roles ∷ []
