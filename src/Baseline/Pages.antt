-- ===== src/Baseline/Pages.antt =====
-- container-baseline/app.py: its pages and the handlers of its routes.
use unikernal_honeynet.Base.{ℕ, String, Option, str_eq, if◌then◌else◌, get_or, ◌<>◌, truthy}
use unikernal_honeynet.Baseline.{Environ, Config, config, Request, Report, build_event}

pub data Page : Type 0 where
  root_page login_page admin_page config_page status_page : Page

unfoldable pub title_of : Page → Config → String
title_of root_page cfg = cfg.title <> (" :: " <> cfg.hostname)
title_of login_page cfg = cfg.title <> " Login"
title_of admin_page cfg = cfg.title <> " Admin"
title_of config_page cfg = cfg.title <> " Configuration"
title_of status_page cfg = cfg.title <> " Status"

unfoldable pub heading_of : Page → Config → String
heading_of root_page cfg = cfg.banner
heading_of login_page cfg = "Authentication Required"
heading_of admin_page cfg = "Administrative Console"
heading_of config_page cfg = "Device Configuration"
heading_of status_page cfg = "Health Overview"

unfoldable pub body_of : Page → Config → String
body_of root_page cfg =
    "<p>"
    <> (cfg.label
        <> (" at <strong>"
            <> (cfg.hostname <> "</strong> is online.</p><p><a href='/login'>Open login</a></p>")))
body_of login_page cfg =
    "<form method='post' action='/login'><label>Username <input type='text' name='username'></label><br><br><label>Password <input type='password' name='password'></label><br><br><button type='submit'>Sign in</button></form>"
body_of admin_page cfg = "<p>Administrative mode is locked. Additional privileges are required.</p>"
body_of config_page cfg = "<p>Configuration export is disabled for this session.</p>"
body_of status_page cfg = "<p>Service state: nominal. Last sync: 07 seconds ago.</p>"

unfoldable pub notice_of : String → String
notice_of message =
    if truthy message
    then "<p style='color:#8f2d1f;'><strong>" <> (message <> "</strong></p>")
    else ""

unfoldable pub render_page : Page → Config → String → String
unfolding title_of heading_of body_of notice_of
render_page kind cfg message =
    "<!doctype html>\n<html lang=\"en\">\n  <head>\n    <meta charset=\"utf-8\">\n    <meta name=\"viewport\" content=\"width=device-width, initial-scale=1\">\n    <title>"
    <> ((title_of kind cfg)
        <> ("</title>\n    <style>\n      body {\n        margin: 0;\n        font-family: \"Segoe UI\", sans-serif;\n        background: linear-gradient(180deg, #eef3f7, #dce6ee);\n        color: #152129;\n      }\n      main {\n        max-width: 520px;\n        margin: 48px auto;\n        background: #ffffff;\n        border: 1px solid #ccd7e0;\n        border-radius: 18px;\n        padding: 28px;\n        box-shadow: 0 12px 28px rgba(21, 33, 41, 0.08);\n      }\n      .meta {\n        color: #54646f;\n        font-size: 0.95rem;\n      }\n      a {\n        color: #0a5887;\n      }\n      input {\n        width: 100%;\n        padding: 10px 12px;\n        margin-top: 6px;\n        border-radius: 10px;\n        border: 1px solid #c6d0d8;\n      }\n      button {\n        background: #0a5887;\n        color: #fff;\n        border: 0;\n        border-radius: 10px;\n        padding: 10px 14px;\n      }\n    </style>\n  </head>\n  <body>\n    <main>\n      <div class=\"meta\">"
            <> (cfg.profile
                <> (" profile :: "
                    <> (cfg.hostname
                        <> ("</div>\n      <h1>"
                            <> ((heading_of kind cfg)
                                <> ("</h1>\n      "
                                    <> ((notice_of message)
                                        <> ("\n      "
                                            <> ((body_of kind cfg)
                                                <> "\n    </main>\n  </body>\n</html>")))))))))))

-- What a handler does: the report that it sends, and its answer.
pub record Handled : Type 0 where
  pub sent : Report
  pub status : ℕ
  pub body : String

-- `request.form.get(name, "")` of a POST.
abbrev pub form_text : Request → Option String → String
form_text request value = if str_eq request.method "POST" then get_or value "" else ""

module _ (environ : Environ) (utc_now : String) (request : Request) where
  -- GET /
  unfoldable pub root : Handled
  root = record {
    sent = build_event environ utc_now request "GET" "/" "" "";
    status = 200;
    body = render_page root_page (config environ) "";
  }

  -- GET and POST /login
  unfoldable pub login : Handled
  login =
      if str_eq request.method "POST"
      then record {
        sent =
            build_event environ utc_now request "POST" "/login"
              (form_text request request.form_username) (form_text request request.form_password);
        status = 401;
        body =
            render_page login_page (config environ)
              "Authentication failed. Audit trail has been updated.";
      }
      else record {
        sent = build_event environ utc_now request "GET" "/login" "" "";
        status = 200;
        body = render_page login_page (config environ) "";
      }

  -- GET /admin
  unfoldable pub admin : Handled
  admin = record {
    sent = build_event environ utc_now request "GET" "/admin" "" "";
    status = 403;
    body = render_page admin_page (config environ) "";
  }

  -- GET /config
  unfoldable pub configuration : Handled
  configuration = record {
    sent = build_event environ utc_now request "GET" "/config" "" "";
    status = 403;
    body = render_page config_page (config environ) "";
  }

  -- GET /status
  unfoldable pub status_of : Handled
  status_of = record {
    sent = build_event environ utc_now request "GET" "/status" "" "";
    status = 200;
    body = render_page status_page (config environ) "";
  }

  -- Any other path, by GET or POST.
  unfoldable pub catch_all : String → Handled
  catch_all requested = record {
    sent =
        build_event environ utc_now request request.method ("/" <> requested)
          (form_text request request.form_username) (form_text request request.form_password);
    status = 404;
    body = "<h1>404</h1><p>Resource not found.</p>";
  }
