-- ===== src/Handler/Docs.antt =====
-- internal/handler/swagger_handler.go and openapi_handler.go.
use sap_orders_api.Prelude.{String}
use sap_orders_api.Handler.Response.{Response, text}

abbrev pub swagger_ui_html : String
swagger_ui_html =
    "<!DOCTYPE html>\n<html lang=\"en\">\n<head>\n  <meta charset=\"UTF-8\" />\n  <title>SAP Orders API - Swagger UI</title>\n  <link rel=\"stylesheet\" href=\"https://unpkg.com/swagger-ui-dist@5/swagger-ui.css\" />\n</head>\n<body>\n  <div id=\"swagger-ui\"></div>\n  <script src=\"https://unpkg.com/swagger-ui-dist@5/swagger-ui-bundle.js\"></script>\n  <script>\n    window.onload = function () {\n      SwaggerUIBundle({\n        url: '/openapi.yaml',\n        dom_id: '#swagger-ui',\n        presets: [SwaggerUIBundle.presets.apis],\n        layout: 'BaseLayout'\n      });\n    };\n  </script>\n</body>\n</html>"

unfoldable pub swagger_ui : Response
swagger_ui = record { status = 200; body = text "text/html; charset=utf-8" swagger_ui_html }

-- `spec` is the file openapi.yaml, which the build embeds.
unfoldable pub open_api : String → Response
open_api spec = record { status = 200; body = text "application/yaml" spec }
